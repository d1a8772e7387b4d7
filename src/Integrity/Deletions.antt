-- ===== src/Integrity/Deletions.antt =====
-- Soundness under the deletions of features and projects, which look for tasks first.
use pro_lens_backend.Base.{
  ℕ, Bool, true, false, Option, none, some, List, [], ◌∷◌, ◌≡◌, refl, ◌∙◌, arith, ◌&&◌, ◌||◌, ◌==◌,
  not, is_none, same_id, any, All, All-map_of, All-intro, All-update_where_of, any-update_where,
  any-update_where_of, any-false, update_where, count, Bool-cases, inl, inr, All-zip,
}
use pro_lens_backend.Model.{Db, Project, Feature}
use pro_lens_backend.Repositories.{
  is_active_task_of, is_active_feature_of, in_active_feature_of, count_feature_tasks,
  count_project_tasks,
}
use pro_lens_backend.Projects.{soft_delete_feature, soft_delete_project}
use pro_lens_backend.Integrity.{
  IsSound, feature_sound, feature_there, task_sound, is_active_project, is_active_feature,
}

count-none {ℓ} :
    {A : Type ℓ} (p : A → Bool) (xs : List A) → count p xs ≡ 0 → All (λ x. p x ≡ false) xs
count-none p [] h = tt
count-none p (x ∷ xs) h = (ground arith, count-none p xs (ground arith))

and_true : (c : Bool) → (c && true) ≡ false → c ≡ false
and_true c h = ground arith

module _ (db : Db) (s : IsSound db) (now by : ℕ) where
  -- Deleting features, where no active task has one of them.
  delete_features :
      (p : Feature → Bool)
      → All
          (λ t.
            (k : ℕ)
            → t.feature_id ≡ some k
            → is_none t.deleted_at ≡ true
            → All (λ f. p f ≡ true → is_active_feature k f ≡ false) db.features)
          db.tasks
      → IsSound (record db { features = update_where p (soft_delete_feature now by) db.features })
  delete_features p free = record {
    features_sound =
        All-update_where_of (λ f. feature_sound db f ≡ true) (λ f. feature_sound db f ≡ true) p
          (soft_delete_feature now by) db.features (λ f _ h. refl) (λ f _ h. h) s.features_sound;
    tasks_sound =
        All-map_of
          (λ t.
            (task_sound db t ≡ true)
            × ((k : ℕ)
                → t.feature_id ≡ some k
                → is_none t.deleted_at ≡ true
                → All (λ f. p f ≡ true → is_active_feature k f ≡ false) db.features))
          _ db.tasks (λ t h. there_after t.feature_id (is_none t.deleted_at) h.0 h.1)
          (All-zip _ _ db.tasks s.tasks_sound free);
  }
    where
      there_after :
          (o : Option ℕ) (b : Bool)
          → (not b || feature_there db o) ≡ true
          → ((k : ℕ)
              → o ≡ some k
              → b ≡ true
              → All (λ f. p f ≡ true → is_active_feature k f ≡ false) db.features)
          → (not b
              || feature_there
                  (record db { features = update_where p (soft_delete_feature now by) db.features })
                  o)
            ≡ true
      there_after none b h apart = h
      there_after (some k) false h apart = refl
      there_after (some k) true h apart =
          any-update_where_of (is_active_feature k) p (soft_delete_feature now by) db.features (
            All-map_of _ _ db.features (λ f away hit. rw (away hit) (ground arith))
              (apart k refl refl))
          ∙ h

  -- A feature without active tasks.
  pub delete_feature-IsSound :
      (id : ℕ)
      → count_feature_tasks id db ≡ 0
      → IsSound (record db {
        features =
            update_where (λ (f : Feature). f.id == id) (soft_delete_feature now by) db.features;
      })
  unfolding count_feature_tasks
  delete_feature-IsSound id none_left =
      delete_features (λ f. f.id == id)
        (All-map_of _ _ db.tasks
          (λ t idle k e alive.
            All-intro db.features
              (λ f hit. other_feature id k f t.feature_id (is_none t.deleted_at) e alive idle hit))
          (count-none (is_active_task_of id) db.tasks none_left))
    where
      other_feature :
          (id k : ℕ) (f : Feature) (o : Option ℕ) (b : Bool)
          → o ≡ some k
          → b ≡ true
          → (same_id o (some id) && b) ≡ false
          → (f.id == id) ≡ true
          → is_active_feature k f ≡ false
      other_feature id k f none b e alive idle hit = cc
      other_feature id k f (some j) b e alive idle hit = ground arith

  -- A project none of whose active features has an active task, with its features.
  pub delete_project-IsSound :
      (id : ℕ)
      → count_project_tasks id db ≡ 0
      → IsSound (record db {
        features = update_where (is_active_feature_of id) (soft_delete_feature now by) db.features;
        projects =
            update_where (λ (p : Project). p.id == id) (soft_delete_project now by) db.projects;
      })
  unfolding count_project_tasks
  delete_project-IsSound id none_left =
      let first = delete_features (is_active_feature_of id) (
        All-map_of _ _ db.tasks
          (λ t idle k e alive.
            All-map_of _ _ db.features (λ f apart hit. unlinked id k f apart hit)
              (any-false (λ f. is_active_feature_of id f && same_id (some k) (some f.id))
                db.features (no_link t.feature_id k (is_none t.deleted_at) e alive idle)))
          (count-none (in_active_feature_of id db) db.tasks none_left)) in
      record {
        features_sound =
            All-map_of (λ f. (feature_sound db f ≡ true) × (is_active_feature_of id f ≡ false)) _ _
              (λ f h. elsewhere f h.0 h.1)
              (All-zip _ _ _ first.features_sound (
                All-update_where_of (λ _. Unit {0}) _ (is_active_feature_of id)
                  (soft_delete_feature now by) db.features (λ f _ _. ground arith)
                  (λ f miss _. miss) (All-intro db.features (λ _. tt))));
        tasks_sound = first.tasks_sound;
      }
    where
      no_link :
          (o : Option ℕ) (k : ℕ) (b : Bool)
          → o ≡ some k
          → b ≡ true
          → (any (λ (f : Feature). is_active_feature_of id f && same_id o (some f.id)) db.features
              && b)
            ≡ false
          → any
              (λ (f : Feature). is_active_feature_of id f && same_id (some k) (some f.id))
              db.features
            ≡ false
      no_link o k b e alive idle = and_true _ (rw (alive, e) at idle)

      unlinked :
          (id k : ℕ) (f : Feature)
          → (is_active_feature_of id f && same_id (some k) (some f.id)) ≡ false
          → is_active_feature_of id f ≡ true
          → is_active_feature k f ≡ false
      unlinked id k f apart hit = ground arith

      elsewhere :
          (f : Feature)
          → feature_sound db f ≡ true
          → is_active_feature_of id f ≡ false
          → feature_sound
              (record db {
                projects =
                    update_where
                      (λ (p : Project). p.id == id)
                      (soft_delete_project now by)
                      db.projects;
              })
              f
            ≡ true
      elsewhere f sound apart =
          let deleted = soft_delete_project now by in
          let kept : is_none f.deleted_at ≡ true
              → any (is_active_project f.project_id)
                  (update_where (λ (p : Project). p.id == id) deleted db.projects)
                ≡ any (is_active_project f.project_id) db.projects =
            λ alive.
              any-update_where (is_active_project f.project_id) (λ (p : Project). p.id == id)
                deleted (λ p hit. ground arith) db.projects in
          elim (Bool-cases (is_none f.deleted_at)) [
            | inl alive ↦ rw (kept alive) sound
            | inr gone ↦ ground arith
          ]
