-- ===== src/Outbox/Worker.antt =====
-- app/worker.py: claim a batch, send without holding locks, record each result in a transaction
-- of its own. The email sender and the commits are given by a `Delivery` for each row.
use pro_lens_backend.Base.{
  ℕ, Bool, Option, none, some, List, [], ◌∷◌, map, ◌==◌, if◌then◌else◌, length, update_where,
}
use pro_lens_backend.Config.{Text, Settings}
use pro_lens_backend.Outbox.{EmailOutbox, claim_batch, mark_sent, record_failure}

pub record EmailMessage : Type 0 where
  pub to_email : Text
  pub subject : Text
  pub body_text : Text
  pub body_html : Option Text

pub record Job : Type 0 where
  pub id : ℕ
  pub message : EmailMessage

unfoldable pub job_of : EmailOutbox → Job
job_of row = record {
  id = row.id;
  message = record {
    to_email = row.to_email;
    subject = row.subject;
    body_text = row.body_text;
    body_html = row.body_html;
  };
}

-- What happens to one message: the error of `sender.send`, if it raised; whether the transaction
-- of `_record` was committed; and its time.
pub record Delivery : Type 0 where
  pub error : Option Text
  pub committed : Bool
  pub at : ℕ

-- `_claim`: a claim whose commit fails leaves the table alone and raises.
unfoldable pub claim : Settings → ℕ → (ℕ → Bool) → List EmailOutbox → List Job × List EmailOutbox
unfolding job_of
claim s now locked rows =
    let (claimed, rows') = claim_batch s.outbox_batch_size now locked rows in
    (map job_of claimed, rows')

unfoldable pub settle : Settings → ℕ → Option Text → EmailOutbox → EmailOutbox
settle s now none row = mark_sent now row
settle s now (some error) row = record_failure s now error row

-- `_record`: the row is found again by its id, whatever its status is by then.
unfoldable pub record_result : Settings → ℕ → ℕ → Option Text → List EmailOutbox → List EmailOutbox
unfolding settle
record_result s now job_id error rows =
    update_where (λ row. row.id == job_id) (settle s now error) rows

-- The loop of `process_batch`: neither a failed send nor a failed `_record` stops it.
unfoldable pub deliver :
    Settings → (Job → Delivery) → List Job → List EmailOutbox → List EmailOutbox
deliver s outcome [] rows = rows
deliver s outcome (job ∷ jobs) rows =
    let d = outcome job in
    deliver s outcome jobs (if d.committed then record_result s d.at job.id d.error rows else rows)

-- The number of rows claimed, and the table at the end.
unfoldable pub process_batch :
    Settings → ℕ → (ℕ → Bool) → (Job → Delivery) → List EmailOutbox → ℕ × List EmailOutbox
unfolding claim deliver
process_batch s now locked outcome rows =
    let (jobs, rows') = claim s now locked rows in (length jobs, deliver s outcome jobs rows')
