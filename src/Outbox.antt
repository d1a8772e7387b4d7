-- ===== src/Outbox.antt =====
-- The transactional email outbox: the row of app/models/outbox.py, `enqueue_email` of
-- app/services/outbox_service.py, and the queries and transitions of
-- app/repositories/outbox_repository.py. The worker is in Outbox/Worker.
pub mod Worker
pub mod Backoff
pub mod Rows
pub mod Claims
pub mod Reach
pub mod Delivery
pub mod Outcomes
pub mod Race
mod Tests
use pro_lens_backend.Base.{
  ℕ, ◌+◌, ◌-◌, ◌*◌, ◌^◌, min, Bool, true, false, Option, none, some, List, [], ◌∷◌, ◌++◌, ◌&&◌,
  ◌||◌, not, map, ltb, leb, ◌==◌, if◌then◌else◌, any, select, update_where, take, sort,
}
use pro_lens_backend.Config.{Text, Settings, seconds}
use pro_lens_backend.Enums.{OutboxStatus}

pub record EmailOutbox : Type 0 where
  pub id : ℕ
  pub organization_id : ℕ
  pub to_email : Text
  pub subject : Text
  pub body_text : Text
  pub body_html : Option Text
  pub status : OutboxStatus
  pub attempts : ℕ
  pub max_attempts : ℕ
  pub next_attempt_at : ℕ
  pub last_error : Option Text
  pub locked_at : Option ℕ
  pub sent_at : Option ℕ
  pub created_at : ℕ
  pub updated_at : ℕ

-- `STALE_PROCESSING_AFTER`, five minutes
abbrev pub stale_processing_after : ℕ
stale_processing_after = seconds 300

abbrev pub max_backoff_seconds : ℕ
max_backoff_seconds = 3600

abbrev pub max_error_length : ℕ
max_error_length = 2000

-- The exponent is `max(attempts - 1, 0)`, which is the truncated difference.
pub compute_backoff_seconds : Settings → ℕ → ℕ
compute_backoff_seconds s attempts =
    min (s.outbox_retry_base_seconds * 2 ^ (attempts - 1)) max_backoff_seconds

-- A new row: the database fills in its id and the time, which are given.
unfoldable pub enqueue_email :
    Settings → ℕ → ℕ → ℕ → Text → Text → Text → Option Text → List EmailOutbox → List EmailOutbox
enqueue_email s new_id now organization_id to_email subject body_text body_html rows =
    rows
    ++ record {
      id = new_id;
      organization_id = organization_id;
      to_email = to_email;
      subject = subject;
      body_text = body_text;
      body_html = body_html;
      status = OutboxStatus.pending;
      attempts = 0;
      max_attempts = s.outbox_max_attempts;
      next_attempt_at = now;
      last_error = none;
      locked_at = none;
      sent_at = none;
      created_at = now;
      updated_at = now;
    }
      ∷ []

-- `locked_at <= now - STALE_PROCESSING_AFTER`, which a null never meets.
abbrev is_stale : ℕ → Option ℕ → Bool
is_stale now none = false
is_stale now (some t) = leb (t + stale_processing_after) now

abbrev pub is_claimable : ℕ → OutboxStatus → Option ℕ → Bool
is_claimable now OutboxStatus.pending locked_at = true
is_claimable now OutboxStatus.processing locked_at = is_stale now locked_at
is_claimable now _ locked_at = false

-- The WHERE clause of `claim_batch`.
pub is_due : ℕ → EmailOutbox → Bool
is_due now row = leb row.next_attempt_at now && is_claimable now row.status row.locked_at

-- ORDER BY next_attempt_at, id
pub claim_order : EmailOutbox → EmailOutbox → Bool
claim_order a b =
    ltb a.next_attempt_at b.next_attempt_at
    || (a.next_attempt_at == b.next_attempt_at && leb a.id b.id)

pub mark_processing : ℕ → EmailOutbox → EmailOutbox
mark_processing now row = record row {
  status = OutboxStatus.processing;
  locked_at = some now;
  updated_at = now;
}

-- The rows that SELECT … FOR UPDATE SKIP LOCKED returns; `locked` tells the rows that another
-- transaction holds.
pub claimable_rows : ℕ → ℕ → (ℕ → Bool) → List EmailOutbox → List EmailOutbox
unfolding is_due claim_order
claimable_rows limit now locked rows =
    take limit (sort claim_order (select (λ row. is_due now row && not (locked row.id)) rows))

abbrev pub has_id : List EmailOutbox → EmailOutbox → Bool
has_id claimed row = any (λ c. c.id == row.id) claimed

-- The claimed rows, and the table after the flush.
pub claim_batch : ℕ → ℕ → (ℕ → Bool) → List EmailOutbox → List EmailOutbox × List EmailOutbox
unfolding claimable_rows mark_processing
claim_batch limit now locked rows =
    let claimed = claimable_rows limit now locked rows in
    (map (mark_processing now) claimed, update_where (has_id claimed) (mark_processing now) rows)

pub mark_sent : ℕ → EmailOutbox → EmailOutbox
mark_sent now row = record row {
  status = OutboxStatus.sent;
  sent_at = some now;
  locked_at = none;
  last_error = none;
  updated_at = now;
}

pub mark_retry : Settings → ℕ → Text → EmailOutbox → EmailOutbox
mark_retry s now error row = record row {
  attempts = row.attempts + 1;
  status = OutboxStatus.pending;
  locked_at = none;
  last_error = some (take max_error_length error);
  next_attempt_at = now + seconds (compute_backoff_seconds s (row.attempts + 1));
  updated_at = now;
}

pub mark_failed : ℕ → Text → EmailOutbox → EmailOutbox
mark_failed now error row = record row {
  attempts = row.attempts + 1;
  status = OutboxStatus.failed;
  locked_at = none;
  last_error = some (take max_error_length error);
  updated_at = now;
}

pub record_failure : Settings → ℕ → Text → EmailOutbox → EmailOutbox
unfolding mark_retry mark_failed
record_failure s now error row =
    if leb row.max_attempts (row.attempts + 1)
    then mark_failed now error row
    else mark_retry s now error row
