-- ===== src/Outbox/Race.antt =====
-- Two workers and one row: the first stalls for five minutes after its claim, the second takes the
-- row over and sends it, and then the first records a failure.
use pro_lens_backend.Base.{
  ℕ, zero, suc, ◌+◌, ◌≤◌, ◌<◌, ◌≡◌, refl, Bool, true, false, none, some, [], ◌∷◌, arith, take,
  ==_refl, All,
}
use pro_lens_backend.Config.{Text, Settings, seconds}
use pro_lens_backend.Enums.{OutboxStatus}
use pro_lens_backend.Outbox.{
  EmailOutbox, stale_processing_after, is_due, claimable_rows, mark_processing, mark_sent,
  mark_retry, mark_failed, record_failure, claim_batch, compute_backoff_seconds,
}
use pro_lens_backend.Outbox.Worker.{claim, settle, record_result}

-- No other transaction holds a lock.
abbrev pub unlocked : ℕ → Bool
unlocked _ = false

take_one {ℓ} : {A : Type ℓ} (n : ℕ) (x : A) → 0 < n → take n (x ∷ []) ≡ x ∷ []
take_one zero x h = absurd (omega arith)
take_one (suc zero) x h = refl
take_one (suc (suc n)) x h = refl

module _ (s : Settings) (some_batch : 0 < s.outbox_batch_size) where
  claim_due :
      (t : ℕ) (r : EmailOutbox)
      → is_due t r ≡ true
      → (claim s t unlocked (r ∷ [])).1 ≡ mark_processing t r ∷ []
  unfolding claim claim_batch claimable_rows
  claim_due t r due = rw (due, take_one s.outbox_batch_size r some_batch, ==_refl) refl

  reclaim_due :
      (t t' : ℕ) (row : EmailOutbox)
      → is_due t row ≡ true
      → t + stale_processing_after ≤ t'
      → is_due t' (mark_processing t row) ≡ true
  unfolding is_due mark_processing
  reclaim_due t t' row due stale = ground arith

  settled_twice :
      (u v : ℕ) (error : Text) (id : ℕ) (r : EmailOutbox)
      → r.id ≡ id
      → record_result s v id (some error) (record_result s u id none (r ∷ []))
        ≡ settle s v (some error) (settle s u none r) ∷ []
  unfolding record_result settle mark_sent
  settled_twice u v error id r same = rw (← same) (rw (==_refl r.id) (rw (==_refl r.id) refl))

  waits_again :
      (u v w : ℕ) (error : Text) (r : EmailOutbox)
      → r.attempts + 1 < r.max_attempts
      → v + seconds (compute_backoff_seconds s (r.attempts + 1)) ≤ w
      → let late = settle s v (some error) (settle s u none r) in
        (late.status ≡ OutboxStatus.pending) × (late.sent_at ≡ some u) × (is_due w late ≡ true)
  unfolding settle mark_sent record_failure mark_retry mark_failed is_due
  waits_again u v w error r spare waited = ground arith

  -- With batches of at least one row, on a table of one row: the first worker claims the row with attempts to spare and stalls until its lock is stale; a second
  -- one claims the row, sends it and records that; then the first one records a failure. The row
  -- waits to be sent again although it was sent, and is due once the delay has passed.
  pub late_failure_resends :
      (t t' u v w : ℕ) (error : Text) (row : EmailOutbox)
      → is_due t row ≡ true
      → t + stale_processing_after ≤ t'
      → row.attempts + 1 < row.max_attempts
      → v + seconds (compute_backoff_seconds s (row.attempts + 1)) ≤ w
      → let first = (claim s t unlocked (row ∷ [])).1 in
        let second = (claim s t' unlocked first).1 in
        let sent = record_result s u row.id none second in
        let late = record_result s v row.id (some error) sent in
        All
          (λ r. (r.status ≡ OutboxStatus.pending) × (r.sent_at ≡ some u) × (is_due w r ≡ true))
          late
  late_failure_resends t t' u v w error row due stale spare waited =
      let one = mark_processing t row in
      let two = mark_processing t' one in
      rw
        (
          claim_due t row due,
          claim_due t' one (reclaim_due t t' row due stale),
          settled_twice u v error row.id two (unfold mark_processing in refl),
        )
        (
          waits_again u v w error two (unfold mark_processing in spare)
              (unfold mark_processing in waited),
          tt,
        )
