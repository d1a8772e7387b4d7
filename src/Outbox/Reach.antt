-- ===== src/Outbox/Reach.antt =====
-- Every interleaving of requests that enqueue emails and of any number of workers, as steps on the
-- table: what stays true, and what two workers can do to one row.
use pro_lens_backend.Base.{
  ℕ, ◌<◌, ◌≡◌, refl, Bool, true, false, Option, none, some, List, [], ◌∷◌, arith, All, All-append,
  All-update_where, All-map_of, All-zip, All-update_where_of, sort, select, any-take, any-sort,
  any-select, has_key, UniqueKeys, UniqueKeys-append, UniqueKeys-update_where, UniqueKeys-select,
  Bool-cases, inl, inr, sym, ◌∙◌, if◌then◌else◌, ◌==◌, ◌&&◌, not,
}
use pro_lens_backend.Config.{Text, Settings}
use pro_lens_backend.Outbox.{
  EmailOutbox, enqueue_email, is_due, claim_order, claimable_rows, mark_processing, mark_sent,
  record_failure, has_id, claim_batch,
}
use pro_lens_backend.Outbox.Worker.{
  Job, Delivery, settle, record_result, claim, deliver, process_batch,
}
use pro_lens_backend.Outbox.Rows.{IsValid, settle-IsValid, mark_processing-IsValid}

-- A row whose id is among the claimed ones was due itself.
has_id_due :
    (limit now : ℕ) (locked : ℕ → Bool) (rows : List EmailOutbox)
    → UniqueKeys (λ (r : EmailOutbox). r.id) rows
    → All (λ r. has_id (claimable_rows limit now locked rows) r ≡ true → is_due now r ≡ true) rows
unfolding claimable_rows
has_id_due limit now locked rows u =
    let q = λ (r : EmailOutbox). is_due now r && not (locked r.id) in
    All-map_of _ _ rows
      (λ r selected hit.
        let own : q r ≡ true = selected (
          sym (any-select (λ c. c.id == r.id) q rows)
          ∙ (sym (any-sort claim_order (λ c. c.id == r.id) (select q rows))
              ∙ any-take (λ c. c.id == r.id) limit (sort claim_order (select q rows)) hit)) in
        ground (arith, own))
      (UniqueKeys-select (λ r. r.id) q rows u)

pub id-settle :
    (s : Settings) (now : ℕ) (error : Option Text) (r : EmailOutbox)
    → (settle s now error r).id ≡ r.id
unfolding settle mark_sent record_failure
id-settle s now none r = refl
id-settle s now (some e) r = ground arith

module _ (s : Settings) where
  -- A transaction that is committed on the table.
  pub data Step : List EmailOutbox → List EmailOutbox → Type 0 where
    enqueued :
        (new_id now org : ℕ) (to subject text : Text) (html : Option Text) (rows : List EmailOutbox)
        → has_key (λ (r : EmailOutbox). r.id) new_id rows ≡ false
        → Step rows (enqueue_email s new_id now org to subject text html rows)
    claimed :
        (now : ℕ) (locked : ℕ → Bool) (rows : List EmailOutbox)
        → Step rows (claim s now locked rows).1
    recorded :
        (now job_id : ℕ) (error : Option Text) (rows : List EmailOutbox)
        → Step rows (record_result s now job_id error rows)

  pub data Reach (rows : List EmailOutbox) : List EmailOutbox → Type 0 where
    here : Reach rows rows
    next : {t u : List EmailOutbox} → Reach rows t → Step t u → Reach rows u

  -- The table: ids are unique, and every row is valid.
  pub record TableIsValid (rows : List EmailOutbox) : Type 0 where
    pub keys : UniqueKeys (λ (r : EmailOutbox). r.id) rows
    pub rows_valid : All IsValid rows

  claim_batch-TableIsValid :
      (limit now : ℕ) (locked : ℕ → Bool) (rows : List EmailOutbox)
      → TableIsValid rows
      → TableIsValid (claim_batch limit now locked rows).1
  unfolding claim_batch
  claim_batch-TableIsValid limit now locked rows v =
      let claimed = claimable_rows limit now locked rows in
      record {
        keys =
            UniqueKeys-update_where (λ (r : EmailOutbox). r.id) (has_id claimed)
              (mark_processing now) rows (λ r. unfold mark_processing in refl) v.keys;
        rows_valid =
            All-update_where_of (λ r. (has_id claimed r ≡ true → is_due now r ≡ true) × IsValid r)
              IsValid (has_id claimed) (mark_processing now) rows
              (λ r hit due. mark_processing-IsValid now r (due.0 hit) due.1) (λ r miss due. due.1)
              (All-zip _ _ rows (has_id_due limit now locked rows v.keys) v.rows_valid);
      }

  Step-TableIsValid :
      {t u : List EmailOutbox}
      → 0 < s.outbox_max_attempts
      → Step t u
      → TableIsValid t
      → TableIsValid u
  Step-TableIsValid some_attempts (enqueued i now org to subject text html rows fresh) v =
      unfold enqueue_email in
      record {
        keys = UniqueKeys-append (λ (r : EmailOutbox). r.id) _ rows fresh v.keys;
        rows_valid = All-append IsValid rows _ v.rows_valid ((some_attempts, refl), tt);
      }
  Step-TableIsValid some_attempts (claimed now locked rows) v =
      unfold claim in claim_batch-TableIsValid s.outbox_batch_size now locked rows v
  Step-TableIsValid some_attempts (recorded now job_id error rows) v =
      unfold record_result in
      record {
        keys =
            UniqueKeys-update_where (λ (r : EmailOutbox). r.id) _ _ rows (id-settle s now error)
              v.keys;
        rows_valid =
            All-update_where IsValid _ _ rows (λ r _ _. settle-IsValid s now error r) v.rows_valid;
      }

  -- If new rows get at least one attempt, then from a valid table, whatever requests, with fresh ids for
  -- new rows, and workers commit in whatever order, the table stays valid: ids are unique; a row that waits or is being sent has attempts left, a failed one has none, the lock is
  -- set exactly on rows that are being sent, and a sent row has its sending time.
  pub Reach-TableIsValid :
      {t u : List EmailOutbox}
      → 0 < s.outbox_max_attempts
      → TableIsValid t
      → Reach t u
      → TableIsValid u
  Reach-TableIsValid some_attempts v here = v
  Reach-TableIsValid some_attempts v (next r st) =
      Step-TableIsValid some_attempts st (Reach-TableIsValid some_attempts v r)

  Reach-trans : {a b c : List EmailOutbox} → Reach a b → Reach b c → Reach a c
  Reach-trans r here = r
  Reach-trans r (next q st) = next (Reach-trans r q) st

  deliver_one :
      (d : Delivery) (job_id : ℕ) (rows : List EmailOutbox)
      → Reach rows (if d.committed then record_result s d.at job_id d.error rows else rows)
  deliver_one d job_id rows = elim (Bool-cases d.committed) [
    | inl done ↦ rw done (next here (recorded d.at job_id d.error rows))
    | inr lost ↦ rw lost here
  ]

  deliver-Reach :
      (outcome : Job → Delivery) (jobs : List Job) (rows : List EmailOutbox)
      → Reach rows (deliver s outcome jobs rows)
  unfolding deliver
  deliver-Reach outcome [] rows = here
  deliver-Reach outcome (job ∷ jobs) rows =
      Reach-trans (deliver_one (outcome job) job.id rows) (deliver-Reach outcome jobs _)

  -- One round of a worker on a batch is a sequence of committed steps of the outbox (claims, sent marks
  -- and recorded failures), whatever the sender and the commits do.
  pub process_batch-Reach :
      (now : ℕ) (locked : ℕ → Bool) (outcome : Job → Delivery) (rows : List EmailOutbox)
      → Reach rows (process_batch s now locked outcome rows).1
  unfolding process_batch
  process_batch-Reach now locked outcome rows =
      Reach-trans (next here (claimed now locked rows))
        (deliver-Reach outcome (claim s now locked rows).0 _)
