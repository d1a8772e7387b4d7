-- ===== src/Integrity/TaskOperations.antt =====
-- The operations of the services on tasks, and the soundness of the database.
use pro_lens_backend.Base.{
  ℕ, true, false, Option, none, some, ◌≡◌, refl, arith, ◌||◌, ◌==◌, not, is_none, Ensures, returns,
  Ensures-bind, Ensures-ok, Ensures-all, same_id, same_id-eq, Bool-cases, inl, inr,
  Ensures-or_raise, Ensures-raise_if, Ensures-raise_unless,
}
use pro_lens_backend.Enums.{is_admin_role, is_manager}
use pro_lens_backend.Model.{Db, User, Feature, Task}
use pro_lens_backend.Repositories.{
  active_project, active_feature, feature_by_id, active_task, task_by_id,
}
use pro_lens_backend.Repositories.Lookups.{live-any, live-by_id, All-live}
use pro_lens_backend.Projects.{set_or, dates_reversed}
use pro_lens_backend.Tasks.{
  TaskCreate, TaskUpdate, create_task, update_task, names_missing_project, delete_task,
  get_usable_feature, resolve_project, require_membership, authorize_move, check_move, can_write,
  apply_task_update, soft_delete_task,
}
use pro_lens_backend.Integrity.{IsSound, task_sound, feature_there}
use pro_lens_backend.Integrity.Tables.{append_task-IsSound, update_task-IsSound}

module _ (db : Db) (s : IsSound db) where
  usable-Ensures :
      (feature_id org : ℕ)
      → Ensures
          (λ _. feature_there db (some feature_id) ≡ true)
          (get_usable_feature feature_id org db)
  unfolding get_usable_feature active_feature feature_by_id
  usable-Ensures feature_id org =
      let P = λ (_ : Feature). feature_there db (some feature_id) ≡ true in
      Ensures-or_raise P (active_feature feature_id db) _ _ λ feature found.
        Ensures-raise_unless P (feature.organization_id == org) _ _ λ same.
          Ensures-or_raise P (active_project feature.project_id db) _ _ λ project active.
            returns
              (live-any (λ (f : Feature). f.id) (λ f. f.deleted_at) feature_id db.features found)

  resolve-Ensures :
      (caller : User) (org : ℕ) (feature_id project_id : Option ℕ)
      → Ensures
          (λ _. feature_there db feature_id ≡ true)
          (resolve_project caller org feature_id project_id db)
  unfolding resolve_project
  resolve-Ensures caller org none none = returns refl
  resolve-Ensures caller org none (some p) = Ensures-all _ _ (λ _. refl)
  resolve-Ensures caller org (some f) project_id =
      let P = λ (_ : Option ℕ). feature_there db (some f) ≡ true in
      Ensures-bind P (get_usable_feature f org db) _ λ feature usable.
        Ensures-bind P (require_membership caller feature.project_id db) _
          λ _ allowed. returns (Ensures-ok _ _ (usable-Ensures f org) usable)

  move-Ensures :
      (caller : User) (t : Task) (feature_id : Option ℕ)
      → Ensures (λ _. feature_there db feature_id ≡ true) (authorize_move caller t feature_id db)
  unfolding authorize_move
  move-Ensures caller t none = Ensures-all _ _ (λ _. refl)
  move-Ensures caller t (some f) =
      let P = λ (_ : Unit {0}). feature_there db (some f) ≡ true in
      Ensures-raise_unless P (is_admin_role caller.role || is_manager caller.role) _ _ λ allowed.
        Ensures-bind P (get_usable_feature f t.organization_id db) _ λ feature usable.
          let there = Ensures-ok _ _ (usable-Ensures f t.organization_id) usable in
          Ensures-all P _ (λ _. there)

  pub create_task-Ensures :
      (id now : ℕ) (caller : User) (payload : TaskCreate)
      → Ensures (λ r. IsSound r.1) (create_task id now caller payload db)
  unfolding create_task
  create_task-Ensures id now caller payload =
      Ensures-or_raise (λ r. IsSound r.1) caller.organization_id _ _
        λ org found.
          Ensures-bind (λ r. IsSound r.1)
            (resolve_project caller org payload.feature_id payload.project_id db) _
            λ project_id resolved. returns (
              append_task-IsSound db s _ (
                Ensures-ok _ _ (resolve-Ensures caller org payload.feature_id payload.project_id)
                  resolved))

  pub delete_task-Ensures :
      (now : ℕ) (caller : User) (id : ℕ) → Ensures IsSound (delete_task now caller id db)
  unfolding delete_task
  delete_task-Ensures now caller id = Ensures-or_raise IsSound (active_task id db) _ _ λ task found.
      Ensures-raise_unless IsSound (can_write caller task true db) _ _ λ allowed. returns (
        update_task-IsSound db s (λ t. t.id == task.id) (soft_delete_task now caller.id)
          (λ x h. refl))

  -- The feature that an update sets, if it sets one, is there.
  abbrev SetThere : Option (Option ℕ) → Type 0
  SetThere none = Unit
  SetThere (some feature_id) = feature_there db feature_id ≡ true

  check_move-Ensures :
      (caller : User) (t : Task) (o : Option (Option ℕ))
      → feature_there db t.feature_id ≡ true
      → Ensures (λ _. SetThere o) (check_move caller t o db)
  unfolding check_move
  check_move-Ensures caller t none there = returns tt
  check_move-Ensures caller t (some feature_id) there =
      elim (Bool-cases (same_id feature_id t.feature_id)) [
        | inl same ↦ rw (same, same_id-eq feature_id t.feature_id same) (returns there)
        | inr moved ↦ rw moved (move-Ensures caller t feature_id)
      ]

  moved_or_kept :
      (caller : User) (payload : TaskUpdate) (o : Option (Option ℕ)) (x : Task)
      → SetThere o
      → (not (is_none x.deleted_at) || feature_there db x.feature_id) ≡ true
      → (not (is_none x.deleted_at) || feature_there db (set_or o x.feature_id)) ≡ true
  moved_or_kept caller payload none x there sound = sound
  moved_or_kept caller payload (some feature_id) x there sound = ground (arith, there)

  active_there :
      (id : ℕ) (task : Task)
      → active_task id db ≡ some task
      → feature_there db task.feature_id ≡ true
  unfolding active_task task_by_id
  active_there id task found =
      let alive = (live-by_id (λ (t : Task). t.id) (λ t. t.deleted_at) id db.tasks found).1 in
      let sound =
        All-live (λ (t : Task). t.id) (λ t. t.deleted_at) (λ t. task_sound db t ≡ true) id db.tasks
          found s.tasks_sound in
      ground (arith, alive, sound)

  pub update_task-Ensures :
      (caller : User) (id : ℕ) (payload : TaskUpdate)
      → Ensures (λ r. IsSound r.1) (update_task caller id payload db)
  unfolding update_task
  update_task-Ensures caller id payload =
      let P = λ (r : Task × Db). IsSound r.1 in
      Ensures-or_raise P (active_task id db) _ _ λ task found.
        Ensures-raise_unless P (can_write caller task false db) _ _ λ allowed.
          Ensures-bind P (check_move caller task payload.feature_id db) _ λ _ moved.
            Ensures-raise_if P
              (dates_reversed (set_or payload.start_date task.start_date)
                (set_or payload.due_date task.due_date))
              _ _
              λ dated. Ensures-raise_if P (names_missing_project payload.project_id db) _ _ λ named.
                returns (
                  update_task-IsSound db s (λ t. t.id == task.id) (apply_task_update payload caller)
                    (λ x sound.
                      moved_or_kept caller payload payload.feature_id x
                        (Ensures-ok _ _
                          (check_move-Ensures caller task payload.feature_id
                            (active_there id task found))
                          moved)
                        sound))
