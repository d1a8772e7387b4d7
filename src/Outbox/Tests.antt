-- ===== src/Outbox/Tests.antt =====
-- The outbox at concrete rows: a table of three, with one due, one claimed by a worker that has
-- stalled, and one that waits for its delay.
use pro_lens_backend.Base.{
  ◌↔◌, map, ℕ, ◌≤◌, ◌+◌, ◌≡◌, refl, true, false, none, some, List, [], ◌∷◌, arith, min, All, length,
  count, not, ◌&&◌, ◌==◌, select,
}
use pro_lens_backend.Config.{Settings, default_settings}
use pro_lens_backend.Enums.{OutboxStatus}
use pro_lens_backend.Outbox.{
  EmailOutbox, max_backoff_seconds, compute_backoff_seconds, is_due, claim_order, has_id,
  claimable_rows, claim_batch,
}
use pro_lens_backend.Outbox.Worker.{Job, Delivery, claim, record_result, process_batch}
use pro_lens_backend.Outbox.Backoff.{compute_backoff_seconds_bounds}
use pro_lens_backend.Outbox.Rows.{fail_times, status-fail_times}
use pro_lens_backend.Outbox.Claims.{
  Due, Before, left_for_later, claimable_rows_lem, claim_batch_exclusive,
}
use pro_lens_backend.Outbox.Reach.{TableIsValid, Reach-TableIsValid, process_batch-Reach}
use pro_lens_backend.Outbox.Delivery.{is_sent, has_good, process_batch_sends}
use pro_lens_backend.Outbox.Outcomes.{row_after, job_for, process_batch-row_after}
use pro_lens_backend.Outbox.Race.{unlocked, late_failure_resends}

abbrev s : Settings
s = default_settings

abbrev email : ℕ → EmailOutbox
email id = record {
  id = id;
  organization_id = 1;
  to_email = b'a' ∷ [];
  subject = [];
  body_text = [];
  body_html = none;
  status = OutboxStatus.pending;
  attempts = 0;
  max_attempts = 5;
  next_attempt_at = 100;
  last_error = none;
  locked_at = none;
  sent_at = none;
  created_at = 100;
  updated_at = 100;
}

abbrev table : List EmailOutbox
table =
    email 1
    ∷ record (email 2) { status = OutboxStatus.processing; locked_at = some 50 }
    ∷ record (email 3) { next_attempt_at = 900 }
    ∷ []

backoff_schedule :
    (compute_backoff_seconds s 1 ≡ 30)
    × (compute_backoff_seconds s 4 ≡ 240)
    × (compute_backoff_seconds s 9 ≡ 3600)
unfolding compute_backoff_seconds
backoff_schedule = (refl, refl, refl)

-- The lock of the second row is not stale yet at 500.
claims_first : (claim s 500 unlocked table).0 ≡ (claim s 500 unlocked (email 1 ∷ [])).0
unfolding claim claim_batch claimable_rows is_due claim_order
claims_first = refl

compute_backoff_seconds_bounds_example :
    (min 30 max_backoff_seconds ≤ compute_backoff_seconds s 2)
    × (compute_backoff_seconds s 2 ≤ compute_backoff_seconds s 9)
    × (compute_backoff_seconds s 9 ≤ max_backoff_seconds)
compute_backoff_seconds_bounds_example = compute_backoff_seconds_bounds s 2 9 (omega arith)

status-fail_times_example :
    (fail_times s (λ n. n) (λ _. []) 5 (email 1)).status ≡ OutboxStatus.failed
status-fail_times_example = status-fail_times s (λ n. n) (λ _. []) 4 (email 1)

claimable_rows_lem_example :
    (length (claimable_rows 1 500 unlocked table) ≤ 1)
    × All (λ r. Due 500 r × (unlocked r.id ≡ false)) (claimable_rows 1 500 unlocked table)
    × ((r : EmailOutbox) → (is_due 500 r ≡ true) ↔ Due 500 r)
    × (count (λ r. r.id == 1) (claimable_rows 1 500 unlocked table)
          + count (λ r. r.id == 1) (left_for_later 1 500 unlocked table)
        ≡ count (λ r. r.id == 1) (select (λ r. is_due 500 r && not (unlocked r.id)) table))
    × All
        (λ r. All (λ later. Before r later) (left_for_later 1 500 unlocked table))
        (claimable_rows 1 500 unlocked table)
claimable_rows_lem_example = claimable_rows_lem 1 500 unlocked table (λ r. r.id == 1)

claim_batch_exclusive_example :
    All
      (λ r. has_id (claimable_rows 10 500 unlocked table) r ≡ false)
      (claimable_rows 10 600 unlocked (claim_batch 10 500 unlocked table).1)
claim_batch_exclusive_example =
    claim_batch_exclusive 10 500 10 600 unlocked unlocked table (omega arith)

-- The first message is sent, the second one raises, and the third one's result is lost.
abbrev outcome : Job → Delivery
outcome j = record {
  error = elim (j.id == 2) [ true ↦ some (b'x' ∷ []) | false ↦ none ];
  committed = not (j.id == 3);
  at = 700;
}

table-TableIsValid : TableIsValid s table
table-TableIsValid = record {
  keys = (refl, (refl, (refl, tt)));
  rows_valid = ((omega arith, refl), ((omega arith, refl), ((omega arith, refl), tt)));
}

process_batch-row_after_example :
    (process_batch s 500 unlocked outcome table).1
    ≡ map (λ r. row_after s outcome 500 (job_for (claim s 500 unlocked table).0 r) r) table
process_batch-row_after_example =
    process_batch-row_after s outcome 500 unlocked table (refl, (refl, (refl, tt)))

Reach-TableIsValid_example : TableIsValid s (process_batch s 500 unlocked outcome table).1
Reach-TableIsValid_example =
    Reach-TableIsValid s (omega arith) table-TableIsValid
      (process_batch-Reach s 500 unlocked outcome table)

process_batch_sends_example :
    let (n, rows) = process_batch s 500 unlocked outcome table in
    (n ≡ length (claimable_rows 10 500 unlocked table))
    × All
        (λ r. has_good outcome (claim s 500 unlocked table).0 r ≡ true → is_sent r.status ≡ true)
        rows
process_batch_sends_example =
    process_batch_sends s outcome 500 unlocked table (refl, (refl, (refl, tt)))

late_failure_resends_example :
    let first = (claim s 500 unlocked (email 1 ∷ [])).1 in
    let second = (claim s 400_000_000 unlocked first).1 in
    let sent = record_result s 400_000_001 1 none second in
    let late = record_result s 400_000_002 1 (some []) sent in
    All
      (λ r.
        (r.status ≡ OutboxStatus.pending)
        × (r.sent_at ≡ some 400_000_001)
        × (is_due 500_000_000 r ≡ true))
      late
unfolding is_due compute_backoff_seconds
late_failure_resends_example =
    late_failure_resends s (omega arith) 500 400_000_000 400_000_001 400_000_002 500_000_000 []
      (email 1) refl (omega arith) (omega arith) (omega arith)
