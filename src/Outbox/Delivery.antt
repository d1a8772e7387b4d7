-- ===== src/Outbox/Delivery.antt =====
-- One round of the worker, message by message.
use pro_lens_backend.Base.{
  ℕ, ◌≡◌, refl, Bool, true, false, Option, none, some, List, [], ◌∷◌, arith, All, All-intro,
  All-update_where_of, All-zip, any-false, length, UniqueKeys-page, any, any-map, length-map, ◌∙◌,
  ◌==◌, ◌&&◌, ◌||◌, is_none, UniqueKeys, if◌then◌else◌, Bool-cases, inl, inr, All-map_of, ==_iff,
  map,
}
use pro_lens_backend.Config.{Text, Settings}
use pro_lens_backend.Enums.{OutboxStatus}
use pro_lens_backend.Outbox.{EmailOutbox, claimable_rows, mark_processing, mark_sent, claim_batch}
use pro_lens_backend.Outbox.Reach.{id-settle}
use pro_lens_backend.Outbox.Worker.{
  Job, Delivery, job_of, settle, record_result, claim, deliver, process_batch,
}

abbrev pub is_sent : OutboxStatus → Bool
is_sent OutboxStatus.sent = true
is_sent _ = false

-- The message was sent, and the result was committed.
abbrev pub is_good : Delivery → Bool
is_good d = d.committed && is_none d.error

abbrev pub has_good : (Job → Delivery) → List Job → EmailOutbox → Bool
has_good outcome jobs r = any (λ j. (j.id == r.id) && is_good (outcome j)) jobs

module _ (s : Settings) (outcome : Job → Delivery) where
  -- The rows of the ids in `D` are settled as sent, and no job that is left has such an id.
  abbrev Settled : (ℕ → Bool) → EmailOutbox → Type 0
  Settled D r = D r.id ≡ true → is_sent r.status ≡ true

  abbrev also : (ℕ → Bool) → Job → ℕ → Bool
  also D job k = ((job.id == k) && is_good (outcome job)) || D k

  settled_row :
      (now : ℕ) (error : Option Text) (r : EmailOutbox)
      → is_none error ≡ true
      → is_sent (settle s now error r).status ≡ true
  unfolding settle mark_sent
  settled_row now none r e = refl
  settled_row now (some x) r e = cc

  settle_hit :
      (D : ℕ → Bool) (job : Job) (r : EmailOutbox)
      → D job.id ≡ false
      → (r.id == job.id) ≡ true
      → Settled (also D job) (settle s (outcome job).at (outcome job).error r)
  settle_hit D job r apart hit good =
      let d = outcome job in
      let same : r.id ≡ job.id = (==_iff r.id job.id).0 hit in
      let kept : (settle s d.at d.error r).id ≡ r.id = id-settle s d.at d.error r in
      let none_left : D (settle s d.at d.error r).id ≡ false = rw (kept, same) apart in
      let clean : is_none d.error ≡ true = ground (arith, good, none_left) in
      settled_row d.at d.error r clean

  -- One job: the rows of the good jobs so far, this one included, are settled.
  deliver_one-Settled :
      (D : ℕ → Bool) (job : Job) (rows : List EmailOutbox)
      → D job.id ≡ false
      → All (Settled D) rows
      → All (Settled (also D job)) (
          if (outcome job).committed
          then record_result s (outcome job).at job.id (outcome job).error rows
          else rows)
  deliver_one-Settled D job rows apart h = elim (Bool-cases (outcome job).committed) [
    | inl done ↦ rw done (
        unfold record_result in
        All-update_where_of (Settled D) (Settled (also D job)) _ _ rows
          (λ r hit _. settle_hit D job r apart hit) (λ r miss before good. before (ground arith)) h)
    | inr lost ↦ rw lost (
        All-map_of (Settled D) (Settled (also D job)) rows (λ r before good. before (ground arith))
          h)
  ]

  deliver-Settled :
      (D : ℕ → Bool) (jobs : List Job) (rows : List EmailOutbox)
      → UniqueKeys (λ (j : Job). j.id) jobs
      → All (λ j. D j.id ≡ false) jobs
      → All (Settled D) rows
      → All
          (λ r. (has_good outcome jobs r || D r.id) ≡ true → is_sent r.status ≡ true)
          (deliver s outcome jobs rows)
  unfolding deliver
  deliver-Settled D [] rows u apart h = h
  deliver-Settled D (job ∷ jobs) rows u apart h =
      All-map_of _ _ _ (λ r settled good. settled (ground arith))
        (deliver-Settled (also D job) jobs _ u.1
          (All-map_of _ _ jobs (λ j both. ground (arith, both.0, both.1))
            (All-zip _ _ jobs (any-false (λ j. j.id == job.id) jobs u.0) apart.1))
          (deliver_one-Settled D job rows apart.0 h))

  pub jobs_unique :
      (now : ℕ) (rows : List EmailOutbox)
      → UniqueKeys (λ (r : EmailOutbox). r.id) rows
      → UniqueKeys (λ (j : Job). j.id) (map job_of (map (mark_processing now) rows))
  unfolding job_of mark_processing
  jobs_unique now [] u = tt
  jobs_unique now (r ∷ rows) u = (
    any-map (λ j. j.id == r.id) job_of (map (mark_processing now) rows)
        ∙ (any-map (λ c. c.id == r.id) (mark_processing now) rows ∙ u.0),
    jobs_unique now rows u.1,
  )

  -- On a table with unique ids, a batch reports the number of rows that it claimed; and every claimed email that was sent and
  -- whose result was committed ends as sent, whatever happened to the other emails of the batch.
  pub process_batch_sends :
      (now : ℕ) (locked : ℕ → Bool) (rows : List EmailOutbox)
      → UniqueKeys (λ (r : EmailOutbox). r.id) rows
      → let (n, rows') = process_batch s now locked outcome rows in
        (n ≡ length (claimable_rows s.outbox_batch_size now locked rows))
        × All
            (λ r. has_good outcome (claim s now locked rows).0 r ≡ true → is_sent r.status ≡ true)
            rows'
  unfolding process_batch claim claim_batch
  process_batch_sends now locked rows u =
      let claimed = claimable_rows s.outbox_batch_size now locked rows in
      let jobs = map job_of (map (mark_processing now) claimed) in
      (
        length-map job_of _ ∙ length-map (mark_processing now) claimed,
        All-map_of _ _ _ (λ r settled good. settled (ground (arith, good)))
            (deliver-Settled (λ _. false) jobs _
              (jobs_unique now claimed (unfold claimable_rows in UniqueKeys-page _ _ _ _ rows u))
              (All-intro jobs (λ _. refl)) (All-intro _ (λ r none_yet. cc))),
      )
