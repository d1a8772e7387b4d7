-- ===== src/Outbox/Backoff.antt =====
-- The delay between two attempts: `compute_backoff_seconds` and the retries that it spaces.
use native.Mathlib.Nat.{pow-le-pow_right, one-le-pow}
use pro_lens_backend.Base.{ℕ, ◌+◌, ◌-◌, ◌*◌, ◌^◌, ◌≤◌, ◌≡◌, arith, min, leb}
use pro_lens_backend.Config.{Text, Settings, seconds}
use pro_lens_backend.Outbox.{
  EmailOutbox, compute_backoff_seconds, max_backoff_seconds, is_due, mark_retry,
}

two_pow_mono : {m n : ℕ} → m ≤ n → 2 ^ m ≤ 2 ^ n
two_pow_mono h = pow-le-pow_right (omega arith) h

scaled_mono : (b m n : ℕ) → 2 ^ m ≤ 2 ^ n → (b ≤ b * 2 ^ m) × (b * 2 ^ m ≤ b * 2 ^ n)
scaled_mono b m n h = (grind (arith, one-le-pow m 2 (omega arith)), grind arith)

module _ (s : Settings) where
  -- The delay never falls from one attempt to the next, is at least the base (or the cap, if the
  -- base is above it) and at most the cap.
  pub compute_backoff_seconds_bounds :
      (m n : ℕ)
      → m ≤ n
      → (min s.outbox_retry_base_seconds max_backoff_seconds ≤ compute_backoff_seconds s m)
        × (compute_backoff_seconds s m ≤ compute_backoff_seconds s n)
        × (compute_backoff_seconds s n ≤ max_backoff_seconds)
  unfolding compute_backoff_seconds
  compute_backoff_seconds_bounds m n h =
      let steps =
        scaled_mono s.outbox_retry_base_seconds (m - 1) (n - 1) (two_pow_mono (omega arith)) in
      omega (arith, steps.0, steps.1)

  -- A row put back for a retry is not due before the delay of its new attempt count has passed,
  -- and is due from then on.
  is_due-mark_retry :
      (now t : ℕ) (error : Text) (row : EmailOutbox)
      → is_due t (mark_retry s now error row)
        ≡ leb (now + seconds (compute_backoff_seconds s (row.attempts + 1))) t
  unfolding is_due mark_retry
  is_due-mark_retry now t error row = ground arith
