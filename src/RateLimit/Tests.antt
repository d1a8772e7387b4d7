-- ===== src/RateLimit/Tests.antt =====
-- The limiter over a short run of calls: two attempts for key 7, one for key 8, and a reset of 8.
use pro_lens_backend.Base.{
  ℕ, ◌≡◌, refl, true, false, List, [], ◌∷◌, arith, leb, length, select, get, put, pop,
}
use pro_lens_backend.RateLimit.{
  new_limiter, drop_expired, prune, is_limited, check, record_attempt, reset,
}
use pro_lens_backend.RateLimit.Events.{Event, step, run, history, in_window}
use pro_lens_backend.RateLimit.Exact.{is_limited_exact}

abbrev calls : List (ℕ × Event)
calls =
    (10, Event.recorded 7)
    ∷ (20, Event.recorded 8)
    ∷ (30, Event.recorded 7)
    ∷ (40, Event.was_reset 8)
    ∷ (50, Event.checked 7)
    ∷ []

-- Two attempts are in the window of 300 at 60, and one is left at 320.
limited_then_free :
    ((is_limited 7 60 (run calls (new_limiter 2 300))).0 ≡ true)
    × ((is_limited 7 320 (run calls (new_limiter 2 300))).0 ≡ false)
    × ((is_limited 8 60 (run calls (new_limiter 1 300))).0 ≡ false)
unfolding run step is_limited check record_attempt reset prune drop_expired get put pop
limited_then_free = (refl, refl, refl)

is_limited_exact_example :
    (is_limited 7 320 (run calls (new_limiter 2 300))).0
    ≡ leb 2 (length (select (in_window 300 320) (history calls (λ _. []) 7)))
is_limited_exact_example = is_limited_exact 2 300 320 7 calls (omega arith)
