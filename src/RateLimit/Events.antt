-- ===== src/RateLimit/Events.antt =====
-- Calls of the limiter over time, and the full history of attempts that they make.
use pro_lens_backend.Base.{ℕ, ◌+◌, Bool, List, [], ◌∷◌, ◌++◌, ltb, ◌==◌, if◌then◌else◌}
use pro_lens_backend.RateLimit.{SlidingWindowRateLimiter, check, record_attempt, reset}

-- A call of the limiter, with the time at which it runs.
pub data Event : Type 0 where
  checked : ℕ → Event
  recorded : ℕ → Event
  was_reset : ℕ → Event

unfoldable pub step : ℕ → Event → SlidingWindowRateLimiter → SlidingWindowRateLimiter
step now (Event.checked key) l = (check key now l).1
step now (Event.recorded key) l = record_attempt key now l
step now (Event.was_reset key) l = reset key l

unfoldable pub run : List (ℕ × Event) → SlidingWindowRateLimiter → SlidingWindowRateLimiter
run [] l = l
run ((now, e) ∷ es) l = run es (step now e l)

-- The history of a key: every attempt recorded since its last reset.
abbrev pub History : Type 0
History = ℕ → List ℕ

abbrev pub remember : ℕ → Event → History → History
remember now (Event.checked key) h j = h j
remember now (Event.recorded key) h j = if key == j then h j ++ now ∷ [] else h j
remember now (Event.was_reset key) h j = if key == j then [] else h j

unfoldable pub history : List (ℕ × Event) → History → History
history [] h = h
history ((now, e) ∷ es) h = history es (remember now e h)

-- An attempt at `t` still counts at `now`.
abbrev pub in_window : ℕ → ℕ → ℕ → Bool
in_window window now t = ltb now (t + window)
