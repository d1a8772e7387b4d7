-- ===== src/Outbox/Rows.antt =====
-- What holds of every row of the outbox, and what the transitions of the repository keep of it.
use pro_lens_backend.Base.{
  ℕ, zero, suc, ◌+◌, ◌≤◌, ◌<◌, ◌≡◌, refl, true, false, Option, none, some, arith, is_none, leb,
  if◌then◌else◌,
}
use pro_lens_backend.Config.{Text, Settings}
use pro_lens_backend.Enums.{OutboxStatus}
use pro_lens_backend.Outbox.{EmailOutbox, mark_processing, mark_sent, record_failure, is_due}
use pro_lens_backend.Outbox.Worker.{settle}

-- A row that waits or is being sent has attempts left; a failed one has none. The lock time is set
-- exactly while it is being sent, and the sending time once it is sent.
abbrev pub StatusIsValid : OutboxStatus → EmailOutbox → Type 0
StatusIsValid OutboxStatus.pending r = (r.attempts < r.max_attempts) × (is_none r.locked_at ≡ true)
StatusIsValid OutboxStatus.processing r =
    (r.attempts < r.max_attempts) × (is_none r.locked_at ≡ false)
StatusIsValid OutboxStatus.sent r = (is_none r.sent_at ≡ false) × (is_none r.locked_at ≡ true)
StatusIsValid OutboxStatus.failed r = (r.max_attempts ≤ r.attempts) × (is_none r.locked_at ≡ true)

abbrev pub IsValid : EmailOutbox → Type 0
IsValid r = StatusIsValid r.status r

pub record_failure-IsValid :
    (s : Settings) (now : ℕ) (e : Text) (r : EmailOutbox) → IsValid (record_failure s now e r)
unfolding record_failure
record_failure-IsValid s now e r = ground arith

pub settle-IsValid :
    (s : Settings) (now : ℕ) (error : Option Text) (r : EmailOutbox)
    → IsValid (settle s now error r)
unfolding settle mark_sent
settle-IsValid s now none r = ground arith
settle-IsValid s now (some e) r = record_failure-IsValid s now e r

-- Only rows that wait or are being sent are due, so a claim keeps the validity of what it takes.
pub mark_processing-IsValid :
    (now : ℕ) (r : EmailOutbox) → is_due now r ≡ true → IsValid r → IsValid (mark_processing now r)
unfolding is_due mark_processing
mark_processing-IsValid now r due v = ground arith

-- `n` failures in a row, at any times and with any errors.
pub fail_times : Settings → (ℕ → ℕ) → (ℕ → Text) → ℕ → EmailOutbox → EmailOutbox
fail_times s at error zero r = r
fail_times s at error (suc n) r = record_failure s (at n) (error n) (fail_times s at error n r)

attempts-fail_times :
    (s : Settings) (at : ℕ → ℕ) (error : ℕ → Text) (n : ℕ) (r : EmailOutbox)
    → ((fail_times s at error n r).attempts ≡ r.attempts + n)
      × ((fail_times s at error n r).max_attempts ≡ r.max_attempts)
unfolding fail_times record_failure
attempts-fail_times s at error zero r = (omega arith, refl)
attempts-fail_times s at error (suc n) r = ground (arith, attempts-fail_times s at error n r)

-- After one failure or more a row has failed for good exactly when it has used up its attempts;
-- otherwise it waits for the next one.
pub status-fail_times :
    (s : Settings) (at : ℕ → ℕ) (error : ℕ → Text) (n : ℕ) (r : EmailOutbox)
    → (fail_times s at error (suc n) r).status ≡ (
        if leb r.max_attempts (r.attempts + suc n)
        then OutboxStatus.failed
        else OutboxStatus.pending)
unfolding fail_times record_failure
status-fail_times s at error n r = ground (arith, attempts-fail_times s at error n r)
