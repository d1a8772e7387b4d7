-- ===== src/RateLimit/Exact.antt =====
-- The limiter, which forgets attempts as they leave the window, against the full history.
use native.Mathlib.Nat.{le_refl}
use pro_lens_backend.Base.{ℕ, ◌≤◌, ◌≡◌, refl, List, [], ◌∷◌, leb, get, length, select}
use pro_lens_backend.RateLimit.{
  SlidingWindowRateLimiter, hits_of, prune, is_limited, check, record_attempt, reset, new_limiter,
}
use pro_lens_backend.RateLimit.Events.{Event, step, run, History, remember, history, in_window}
use pro_lens_backend.RateLimit.Window.{drop_expired-eq-select}
use pro_lens_backend.RateLimit.Matches.{Matches, pruned, prune-Matches, push-Matches, reset-Matches}

-- The calls run in the order of their times, from `c` on and not after `now`.
abbrev pub InOrder : ℕ → List (ℕ × Event) → ℕ → Type 0
InOrder c [] now = c ≤ now
InOrder c ((t, e) ∷ es) now = (c ≤ t) × InOrder t es now

step-Matches :
    (c now : ℕ) (e : Event) (l : SlidingWindowRateLimiter) (h : History)
    → c ≤ now
    → Matches l.window c l.hits h
    → Matches l.window now (step now e l).hits (remember now e h)
unfolding step check is_limited prune record_attempt reset pruned
step-Matches c now (Event.checked key) l h later m =
    prune-Matches l.window c now later l.hits h m key
step-Matches c now (Event.recorded key) l h later m =
    let p = prune-Matches l.window c now later l.hits h m key in
    push-Matches l.window now now (le_refl now) (pruned l.window c now later l.hits h m key) h p key
      p
step-Matches c now (Event.was_reset key) l h later m =
    reset-Matches l.window c now later l.hits h m key

run_exact :
    (c now key : ℕ) (es : List (ℕ × Event)) (l : SlidingWindowRateLimiter) (h : History)
    → InOrder c es now
    → Matches l.window c l.hits h
    → (is_limited key now (run es l)).0
      ≡ leb l.max_attempts (length (select (in_window l.window now) (history es h key)))
unfolding run history step check is_limited prune record_attempt reset
run_exact c now key [] l h order m =
    unfold is_limited prune in
    rw
      (
        drop_expired-eq-select l.window now (hits_of l.hits key) (m.in_order key),
        m.same key now order,
      )
      refl
run_exact c now key ((t, Event.checked k) ∷ es) l h order m =
    run_exact t now key es (step t (Event.checked k) l) (remember t (Event.checked k) h) order.1
      (step-Matches c t (Event.checked k) l h order.0 m)
run_exact c now key ((t, Event.recorded k) ∷ es) l h order m =
    run_exact t now key es (step t (Event.recorded k) l) (remember t (Event.recorded k) h) order.1
      (step-Matches c t (Event.recorded k) l h order.0 m)
run_exact c now key ((t, Event.was_reset k) ∷ es) l h order m =
    run_exact t now key es (step t (Event.was_reset k) l) (remember t (Event.was_reset k) h) order.1
      (step-Matches c t (Event.was_reset k) l h order.0 m)

-- A limiter that starts empty and is called in the order of the clock limits a key exactly when the
-- attempts recorded for the key since its last reset that are still in the window number
-- `max_attempts` or more, whatever happened to other keys.
pub is_limited_exact :
    (max_attempts window now key : ℕ) (es : List (ℕ × Event))
    → InOrder 0 es now
    → (is_limited key now (run es (new_limiter max_attempts window))).0
      ≡ leb max_attempts (length (select (in_window window now) (history es (λ _. []) key)))
unfolding get
is_limited_exact max_attempts window now key es order =
    run_exact 0 now key es (new_limiter max_attempts window) (λ _. []) order
      (record { in_order = λ k. tt; past = λ k. tt; same = λ k t le. refl })
