-- ===== src/Integrity/Tables.antt =====
-- Soundness under each kind of write to the three tables.
use pro_lens_backend.Base.{
  ℕ, Bool, true, false, Option, none, some, List, [], ◌∷◌, ◌++◌, ◌≡◌, ◌∙◌, arith, ◌||◌, not,
  is_none, any, All, All-append, All-map_of, All-update_where_of, any-append, any-update_where,
  update_where, count,
}
use pro_lens_backend.Model.{Db, Project, Feature, Task}
use pro_lens_backend.Integrity.{
  IsSound, feature_sound, feature_there, task_sound, is_active_project, is_active_feature,
}

count-none {ℓ} :
    {A : Type ℓ} (p : A → Bool) (xs : List A) → count p xs ≡ 0 → All (λ x. p x ≡ false) xs
count-none p [] h = tt
count-none p (x ∷ xs) h = (ground arith, count-none p xs (ground arith))

any_left : (a b c : Bool) → (a || b) ≡ true → (a || (b || c)) ≡ true
any_left a b c h = ground arith

module _ (db : Db) (s : IsSound db) where
  -- A new project takes nothing away.
  pub append_project-IsSound :
      (p : Project) → IsSound (record db { projects = db.projects ++ p ∷ [] })
  append_project-IsSound p = record {
    features_sound =
        All-map_of (λ f. feature_sound db f ≡ true) _ db.features
          (λ f h.
            rw (any-append (is_active_project f.project_id) db.projects (p ∷ []))
              (any_left (not (is_none f.deleted_at)) _ _ h))
          s.features_sound;
    tasks_sound = s.tasks_sound;
  }

  -- An update that leaves the ids and the deletion marks of projects alone.
  pub update_project-IsSound :
      (p : Project → Bool) (g : Project → Project)
      → ((x : Project) (k : ℕ) → is_active_project k (g x) ≡ is_active_project k x)
      → IsSound (record db { projects = update_where p g db.projects })
  update_project-IsSound p g same = record {
    features_sound =
        All-map_of (λ f. feature_sound db f ≡ true) _ db.features
          (λ f h.
            rw
              (any-update_where (is_active_project f.project_id) p g (λ x _. same x f.project_id)
                db.projects)
              h)
          s.features_sound;
    tasks_sound = s.tasks_sound;
  }

  -- A new feature of an active project.
  pub append_feature-IsSound :
      (f : Feature)
      → any (is_active_project f.project_id) db.projects ≡ true
      → IsSound (record db { features = db.features ++ f ∷ [] })
  append_feature-IsSound f active = record {
    features_sound =
        All-append (λ x. feature_sound db x ≡ true) db.features (f ∷ []) s.features_sound
          (ground (arith, active), tt);
    tasks_sound =
        All-map_of (λ t. task_sound db t ≡ true) _ db.tasks
          (λ t h. there_after f t.feature_id (not (is_none t.deleted_at)) h) s.tasks_sound;
  }
    where
      there_after :
          (f : Feature) (o : Option ℕ) (b : Bool)
          → (b || feature_there db o) ≡ true
          → (b || feature_there (record db { features = db.features ++ f ∷ [] }) o) ≡ true
      there_after f none b h = h
      there_after f (some k) b h =
          rw (any-append (is_active_feature k) db.features (f ∷ [])) (any_left b _ _ h)

  -- An update that leaves the ids, the projects and the deletion marks of features alone.
  pub update_feature-IsSound :
      (p : Feature → Bool) (g : Feature → Feature)
      → ((x : Feature) (k : ℕ) → is_active_feature k (g x) ≡ is_active_feature k x)
      → ((x : Feature) → feature_sound db (g x) ≡ feature_sound db x)
      → IsSound (record db { features = update_where p g db.features })
  update_feature-IsSound p g same sound = record {
    features_sound =
        All-update_where_of (λ f. feature_sound db f ≡ true) (λ f. feature_sound db f ≡ true) p g
          db.features (λ f _ h. sound f ∙ h) (λ f _ h. h) s.features_sound;
    tasks_sound =
        All-map_of (λ t. task_sound db t ≡ true) _ db.tasks
          (λ t h. there_after t.feature_id (not (is_none t.deleted_at)) h) s.tasks_sound;
  }
    where
      there_after :
          (o : Option ℕ) (b : Bool)
          → (b || feature_there db o) ≡ true
          → (b || feature_there (record db { features = update_where p g db.features }) o) ≡ true
      there_after none b h = h
      there_after (some k) b h =
          rw (any-update_where (is_active_feature k) p g (λ x _. same x k) db.features) h

  -- Tasks are added and rewritten with features that are there.
  pub append_task-IsSound :
      (t : Task) → task_sound db t ≡ true → IsSound (record db { tasks = db.tasks ++ t ∷ [] })
  append_task-IsSound t sound = record {
    features_sound = s.features_sound;
    tasks_sound =
        All-append (λ x. task_sound db x ≡ true) db.tasks (t ∷ []) s.tasks_sound (sound, tt);
  }

  pub update_task-IsSound :
      (p : Task → Bool) (g : Task → Task)
      → ((x : Task) → task_sound db x ≡ true → task_sound db (g x) ≡ true)
      → IsSound (record db { tasks = update_where p g db.tasks })
  update_task-IsSound p g keep = record {
    features_sound = s.features_sound;
    tasks_sound =
        All-update_where_of (λ t. task_sound db t ≡ true) (λ t. task_sound db t ≡ true) p g db.tasks
          (λ t _ h. keep t h) (λ t _ h. h) s.tasks_sound;
  }
