-- ===== src/Outbox/Outcomes.antt =====
-- A batch of the worker, row by row: what becomes of a row depends on its own delivery alone.
use pro_lens_backend.Base.{
  map_congr, map-map, map_unchanged, update_where-map, ℕ, ◌+◌, Bool, true, false, Option, none,
  some, List, [], ◌∷◌, ◌==◌, ◌≡◌, refl, sym, ap, ◌∙◌, arith, any, find, is_none, map, take, leb,
  if◌then◌else◌, UniqueKeys, UniqueKeys-page, Bool-cases, inl, inr, ==_iff, not, Option-cases,
}
use mathlib.Core.Path.{subst}
use pro_lens_backend.Config.{Text, Settings, seconds}
use pro_lens_backend.Enums.{OutboxStatus}
use pro_lens_backend.Outbox.{
  EmailOutbox, max_error_length, compute_backoff_seconds, claimable_rows, claim_batch,
  mark_processing, mark_sent, mark_retry, mark_failed, record_failure, has_id,
}
use pro_lens_backend.Outbox.Reach.{id-settle}
use pro_lens_backend.Outbox.Delivery.{jobs_unique}
use pro_lens_backend.Outbox.Worker.{
  Job, Delivery, job_of, settle, record_result, claim, deliver, process_batch,
}

-- A claimed row whose result is lost stays locked.
abbrev pub locked_row : ℕ → EmailOutbox → EmailOutbox
locked_row now r = record r {
  status = OutboxStatus.processing;
  locked_at = some now;
  updated_at = now;
}

-- A row after a failed attempt: for good if it was the last one, or waiting for the next one.
abbrev pub failed_row : Settings → ℕ → Text → EmailOutbox → EmailOutbox
failed_row s at error r =
    if leb r.max_attempts (r.attempts + 1)
    then record r {
      attempts = r.attempts + 1;
      status = OutboxStatus.failed;
      locked_at = none;
      last_error = some (take max_error_length error);
      updated_at = at;
    }
    else record r {
      attempts = r.attempts + 1;
      status = OutboxStatus.pending;
      locked_at = none;
      last_error = some (take max_error_length error);
      next_attempt_at = at + seconds (compute_backoff_seconds s (r.attempts + 1));
      updated_at = at;
    }

abbrev pub ended_row : Settings → ℕ → Bool → Option Text → ℕ → EmailOutbox → EmailOutbox
ended_row s now false error at r = locked_row now r
ended_row s now true none at r = record r {
  status = OutboxStatus.sent;
  sent_at = some at;
  locked_at = none;
  last_error = none;
  updated_at = at;
}
ended_row s now true (some error) at r = failed_row s at error r

-- The row at the end of the batch, by the job that was made of it, if one was
abbrev pub row_after : Settings → (Job → Delivery) → ℕ → Option Job → EmailOutbox → EmailOutbox
row_after s outcome now none r = r
row_after s outcome now (some j) r =
    ended_row s now (outcome j).committed (outcome j).error (outcome j).at r

abbrev pub job_for : List Job → EmailOutbox → Option Job
job_for jobs r = find (λ (j : Job). j.id == r.id) jobs

module _ (s : Settings) (outcome : Job → Delivery) where
  -- What a job does to its own row
  abbrev settle_if : Delivery → EmailOutbox → EmailOutbox
  settle_if d r = if d.committed then settle s d.at d.error r else r

  abbrev settled : Option Job → EmailOutbox → EmailOutbox
  settled none r = r
  settled (some j) r = settle_if (outcome j) r

  abbrev settled_one : Job → EmailOutbox → EmailOutbox
  settled_one j r = if r.id == j.id then settle_if (outcome j) r else r

  one_job :
      (j : Job) (rows : List EmailOutbox)
      → (if (outcome j).committed
          then record_result s (outcome j).at j.id (outcome j).error rows
          else rows)
        ≡ map (settled_one j) rows
  unfolding record_result
  one_job j rows = elim (Bool-cases (outcome j).committed) [
    | inl done ↦
        rw
          (
            done,
            update_where-map (λ (r : EmailOutbox). r.id == j.id)
                (settle s (outcome j).at (outcome j).error) rows,
          )
          (map_congr rows (λ r. rw done refl))
    | inr lost ↦
        rw lost
          (sym (map_congr rows (λ r. rw lost (same_either (r.id == j.id) r)) ∙ map_unchanged rows))
  ]
    where
      same_either : (b : Bool) (r : EmailOutbox) → (if b then r else r) ≡ r
      same_either true r = refl
      same_either false r = refl

  id-settle_if : (d : Delivery) (r : EmailOutbox) → (settle_if d r).id ≡ r.id
  id-settle_if d r = elim (Bool-cases d.committed) [
    | inl done ↦ rw done (id-settle s d.at d.error r)
    | inr lost ↦ rw lost refl
  ]

  -- After its own job, no other one finds the row.
  job_then_rest :
      (j : Job) (jobs : List Job) (r : EmailOutbox)
      → any (λ (k : Job). k.id == j.id) jobs ≡ false
      → settled (job_for jobs (settled_one j r)) (settled_one j r)
        ≡ settled (job_for (j ∷ jobs) r) r
  job_then_rest j jobs r apart = elim (Bool-cases (r.id == j.id)) [
    | inl hit ↦
        let same : r.id ≡ j.id = (==_iff r.id j.id).0 hit in
        let own : (j.id == r.id) ≡ true = (==_iff j.id r.id).1 (sym same) in
        let key : (settle_if (outcome j) r).id ≡ j.id = id-settle_if (outcome j) r ∙ same in
        let rest : find (λ (k : Job). k.id == j.id) jobs ≡ none = none_found jobs apart in
        let gone = no_job (settle_if (outcome j) r) key rest in rw (hit, own, gone) refl
    | inr miss ↦ let other : (j.id == r.id) ≡ false = ground arith in rw (miss, other) refl
  ]
    where
      no_job :
          (x : EmailOutbox)
          → x.id ≡ j.id
          → find (λ (k : Job). k.id == j.id) jobs ≡ none
          → job_for jobs x ≡ none
      no_job x e rest = subst (λ n. find (λ (k : Job). k.id == n) jobs ≡ none) (sym e) rest

      none_found :
          (js : List Job)
          → any (λ (k : Job). k.id == j.id) js ≡ false
          → find (λ (k : Job). k.id == j.id) js ≡ none
      none_found [] h = refl
      none_found (k ∷ js) h =
          let other : (k.id == j.id) ≡ false = ground arith in
          rw other (none_found js (ground arith))

  deliver-map :
      (jobs : List Job) (rows : List EmailOutbox)
      → UniqueKeys (λ (j : Job). j.id) jobs
      → deliver s outcome jobs rows ≡ map (λ r. settled (job_for jobs r) r) rows
  unfolding deliver
  deliver-map [] rows u = sym (map_unchanged rows)
  deliver-map (j ∷ jobs) rows u =
      ap (deliver s outcome jobs) (one_job j rows)
      ∙ deliver-map jobs (map (settled_one j) rows) u.1
      ∙ map-map (λ r. settled (job_for jobs r) r) (settled_one j) rows
      ∙ map_congr rows (λ r. job_then_rest j jobs r u.0)

  -- From a claimed row to what the batch leaves of it
  claimed_row :
      (now : ℕ) (j : Job) (r : EmailOutbox)
      → settle_if (outcome j) (mark_processing now r) ≡ row_after s outcome now (some j) r
  unfolding mark_processing settle mark_sent record_failure mark_retry mark_failed
  claimed_row now j r = by_delivery (outcome j).committed (outcome j).error (outcome j).at
    where
      by_delivery :
          (committed : Bool) (error : Option Text) (at : ℕ)
          → (if committed then settle s at error (mark_processing now r) else mark_processing now r)
            ≡ ended_row s now committed error at r
      by_delivery false error at = refl
      by_delivery true none at = refl
      by_delivery true (some e) at = elim (Bool-cases (leb r.max_attempts (r.attempts + 1))) [
        | inl last ↦ rw last refl
        | inr more ↦ rw more refl
      ]

  abbrev jobs_of : ℕ → List EmailOutbox → List Job
  jobs_of now claimed = map job_of (map (mark_processing now) claimed)

  has_id-job_for :
      (now : ℕ) (claimed : List EmailOutbox) (r : EmailOutbox)
      → has_id claimed r ≡ not (is_none (job_for (jobs_of now claimed) r))
  unfolding job_of mark_processing
  has_id-job_for now [] r = refl
  has_id-job_for now (c ∷ claimed) r = elim (Bool-cases (c.id == r.id)) [
    | inl hit ↦ rw hit refl
    | inr miss ↦ rw miss (has_id-job_for now claimed r)
  ]

  still_found :
      (now : ℕ) (jobs : List Job) (j : Job) (r : EmailOutbox)
      → job_for jobs r ≡ some j
      → job_for jobs (mark_processing now r) ≡ some j
  unfolding mark_processing
  still_found now jobs j r found = found

  batch_row :
      (now : ℕ) (claimed : List EmailOutbox) (r : EmailOutbox)
      → let jobs = jobs_of now claimed in
        let locked = if has_id claimed r then mark_processing now r else r in
        settled (job_for jobs locked) locked ≡ row_after s outcome now (job_for jobs r) r
  batch_row now claimed r =
      let jobs = jobs_of now claimed in
      let known = has_id-job_for now claimed r in
      elim (Option-cases (job_for jobs r)) [
        | inl missing ↦
            let unclaimed : has_id claimed r ≡ false =
              known ∙ ap (λ (o : Option Job). not (is_none o)) missing in
            rw (unclaimed, missing) refl
        | inr (j, found) ↦
            let taken : has_id claimed r ≡ true =
              known ∙ ap (λ (o : Option Job). not (is_none o)) found in
            let still = still_found now jobs j r found in
            rw (taken, still, found) (claimed_row now j r)
      ]

  -- A batch treats every row by itself. On a table with unique ids, the table after a batch is the table
  -- before with every row that was not claimed as it was, and every claimed one by its own delivery: sent,
  -- with its time and without a lock; back in the queue with one attempt more and the delay of that
  -- attempt, or failed for good if it was the last one; and locked since the claim if its result was not
  -- committed.
  pub process_batch-row_after :
      (now : ℕ) (locked : ℕ → Bool) (rows : List EmailOutbox)
      → UniqueKeys (λ (r : EmailOutbox). r.id) rows
      → (process_batch s now locked outcome rows).1
        ≡ map (λ r. row_after s outcome now (job_for (claim s now locked rows).0 r) r) rows
  unfolding process_batch claim claim_batch
  process_batch-row_after now locked rows u =
      let claimed = claimable_rows s.outbox_batch_size now locked rows in
      let jobs = jobs_of now claimed in
      ap (deliver s outcome jobs) (update_where-map (has_id claimed) (mark_processing now) rows)
      ∙ deliver-map jobs _ (
          jobs_unique s outcome now claimed
            (unfold claimable_rows in UniqueKeys-page _ _ _ _ rows u))
      ∙ map-map (λ r. settled (job_for jobs r) r) _ rows
      ∙ map_congr rows (batch_row now claimed)
