-- ===== src/Tasks/Updates.antt =====
-- What an update of a task may change, and the project that it may name.
use pro_lens_backend.Base.{
  ℕ, ◌≤◌, Bool, true, false, Option, none, some, ◌≡◌, refl, arith, ◌⊎◌, inl, inr, ◌||◌, ◌==◌,
  same_id, same_id-eq, Bool-cases, ok, err, Ensures, returns, Ensures-bind, Ensures-ok,
  Ensures-or_raise, Ensures-raise_if, Ensures-raise_unless, count, count-update_where,
  raise_unless-Ensures, Ensures-map,
}
use pro_lens_backend.Errors.{Error, Violation}
use pro_lens_backend.Enums.{is_admin_role, is_manager}
use pro_lens_backend.Model.{Db, User, Project, Feature, Task}
use pro_lens_backend.Repositories.{
  active_task, active_project, project_by_id, active_feature, is_member,
}
use pro_lens_backend.Projects.{set_or, dates_reversed}
use pro_lens_backend.Tasks.{
  TaskUpdate, can_write, get_usable_feature, authorize_move, check_move, apply_task_update,
  update_task, names_missing_project,
}

-- A feature that a task may be moved to: active, of the task's organization, in an active project
-- that the caller is a member of, admins excepted.
pub record IsTarget (caller : User) (task : Task) (db : Db) (feature_id : ℕ) : Type 0 where
  pub feature : Feature
  pub project : Project
  pub feature_found : active_feature feature_id db ≡ some feature
  pub same_organization : (feature.organization_id == task.organization_id) ≡ true
  pub project_found : active_project feature.project_id db ≡ some project
  pub membership : (is_admin_role caller.role || is_member feature.project_id caller.id db) ≡ true

abbrev pub TargetOf : User → Task → Db → Option ℕ → Type 0
TargetOf caller task db none = Unit
TargetOf caller task db (some k) = IsTarget caller task db k

-- The feature stays, or an admin or manager moves the task to a permitted one.
abbrev pub IsMove : User → Task → Db → Option ℕ → Type 0
IsMove caller task db feature_id =
    (feature_id ≡ task.feature_id)
    ⊎ (((is_admin_role caller.role || is_manager caller.role) ≡ true)
        × TargetOf caller task db feature_id)

abbrev pub InOrder : Option ℕ → Option ℕ → Type 0
InOrder start due = (a b : ℕ) → start ≡ some a → due ≡ some b → a ≤ b

not_reversed : (start due : Option ℕ) → dates_reversed start due ≡ false → InOrder start due
not_reversed none due h a b e f = cc
not_reversed (some x) none h a b e f = cc
not_reversed (some x) (some y) h a b e f = ground arith

abbrev Usable : ℕ → ℕ → Db → Feature → Type 0
Usable k org db f =
    (active_feature k db ≡ some f)
    × ((f.organization_id == org) ≡ true)
    × ((p : Project) × (active_project f.project_id db ≡ some p))

get_usable_feature-Usable :
    (k org : ℕ) (db : Db) → Ensures (Usable k org db) (get_usable_feature k org db)
unfolding get_usable_feature
get_usable_feature-Usable k org db =
    Ensures-or_raise (Usable k org db) (active_feature k db) _ _ λ feature found.
      Ensures-raise_unless (Usable k org db) (feature.organization_id == org) _ _ λ own.
        Ensures-or_raise (Usable k org db) (active_project feature.project_id db) _ _
          λ project there. returns (found, own, (project, there))

abbrev is_mover : User → Bool
is_mover caller = is_admin_role caller.role || is_manager caller.role

abbrev Permitted : User → Task → Db → Option ℕ → Type 0
Permitted caller task db feature_id = (is_mover caller ≡ true) × TargetOf caller task db feature_id

authorize_move-Permitted :
    (caller : User) (task : Task) (feature_id : Option ℕ) (db : Db)
    → Ensures (λ _. Permitted caller task db feature_id) (authorize_move caller task feature_id db)
unfolding authorize_move
authorize_move-Permitted caller task none db =
    raise_unless-Ensures _ (is_mover caller) Error.insufficient_permission λ mover. (mover, tt)
authorize_move-Permitted caller task (some k) db =
    Ensures-raise_unless (λ _. Permitted caller task db (some k)) (is_mover caller) _ _
      λ mover.
        Ensures-bind (λ _. Permitted caller task db (some k))
          (get_usable_feature k task.organization_id db) _
          λ feature returned.
            let usable =
              Ensures-ok _ _ (get_usable_feature-Usable k task.organization_id db) returned in
            raise_unless-Ensures _
              (is_admin_role caller.role || is_member feature.project_id caller.id db)
              Error.not_project_member
              λ member. (
                mover,
                record {
                  feature = feature;
                  project = usable.2.0;
                  feature_found = usable.0;
                  same_organization = usable.1;
                  project_found = usable.2.1;
                  membership = member;
                },
              )

check_move-IsMove :
    (caller : User) (task : Task) (change : Option (Option ℕ)) (db : Db)
    → Ensures
        (λ _. IsMove caller task db (set_or change task.feature_id))
        (check_move caller task change db)
unfolding check_move
check_move-IsMove caller task none db = returns (inl refl)
check_move-IsMove caller task (some feature_id) db =
    elim (Bool-cases (same_id feature_id task.feature_id)) [
      | inl same ↦ rw same (returns (inl (same_id-eq feature_id task.feature_id same)))
      | inr other ↦ rw other (
          Ensures-map _ _ (λ _ permitted. inr permitted)
            (authorize_move-Permitted caller task feature_id db))
    ]

pub record Updated (task_id : ℕ) (caller : User) (payload : TaskUpdate) (db : Db) (task : Task)
    (db' : Db) : Type 0 where
  pub before : Task
  pub found : active_task task_id db ≡ some before
  pub allowed : can_write caller before false db ≡ true
  pub moved : IsMove caller before db task.feature_id
  pub in_order : InOrder task.start_date task.due_date
  pub others :
      (q : Task → Bool)
      → ((t : Task) → (t.id == before.id) ≡ true → q (apply_task_update payload caller t) ≡ q t)
      → count q db'.tasks ≡ count q db.tasks

abbrev pub UpdatedBy : ℕ → User → TaskUpdate → Db → Task × Db → Type 0
UpdatedBy task_id caller payload db r = Updated task_id caller payload db r.0 r.1

-- Whenever an update of a task returns, the task was found active and the caller may write it; its
-- feature is as before, or an admin or manager has moved it out of features or to an active feature of
-- the task's organization in an active project that the caller, unless an admin, is a member of; its
-- start is not after its due date; and queries that the update does not affect count the same tasks.
pub update_task-Updated :
    (caller : User) (task_id : ℕ) (payload : TaskUpdate) (db : Db)
    → Ensures (UpdatedBy task_id caller payload db) (update_task caller task_id payload db)
unfolding update_task
update_task-Updated caller task_id payload db =
    Ensures-or_raise (UpdatedBy task_id caller payload db) (active_task task_id db) _ _
      λ task found.
        Ensures-raise_unless (UpdatedBy task_id caller payload db) (can_write caller task false db)
          _ _
          λ allowed.
            Ensures-bind (UpdatedBy task_id caller payload db)
              (check_move caller task payload.feature_id db) _
              λ u checked.
                Ensures-raise_if (UpdatedBy task_id caller payload db)
                  (dates_reversed (set_or payload.start_date task.start_date)
                    (set_or payload.due_date task.due_date))
                  _ _
                  λ dated.
                    Ensures-raise_if (UpdatedBy task_id caller payload db)
                      (names_missing_project payload.project_id db) _ _
                      λ named. returns (record {
                        before = task;
                        found = found;
                        allowed = allowed;
                        moved =
                            Ensures-ok _ _ (check_move-IsMove caller task payload.feature_id db)
                              checked;
                        in_order = not_reversed _ _ dated;
                        others = λ q same.
                            count-update_where q (λ t. t.id == task.id)
                              (apply_task_update payload caller) same db.tasks;
                      })

-- A request that only names another project.
abbrev pub only_project : Option ℕ → TaskUpdate
only_project project_id = record {
  project_id = some project_id;
  feature_id = none;
  name = none;
  description = none;
  status = none;
  priority = none;
  estimated_hours = none;
  labels = none;
  subtasks = none;
  start_date = none;
  due_date = none;
}

-- Whoever may write an active task whose dates are in order, an assigned employee too, may set its
-- project to any project that has a row, whether it is deleted, of another organization or one that the
-- caller is no member of: nothing but the dates of the task as it stands is checked. Only an id without a
-- row is refused, by the foreign key.
pub project_unchecked :
    (caller : User) (task_id k missing : ℕ) (task : Task) (project : Project) (db : Db)
    → active_task task_id db ≡ some task
    → can_write caller task false db ≡ true
    → dates_reversed task.start_date task.due_date ≡ false
    → project_by_id k db ≡ some project
    → project_by_id missing db ≡ none
    → ((r : Task × Db) × (update_task caller task_id (only_project (some k)) db ≡ ok r)
        × (r.0.project_id ≡ some k)
        × (r.0.feature_id ≡ task.feature_id))
      × (update_task caller task_id (only_project (some missing)) db
          ≡ err (Error.integrity_error Violation.foreign_key))
unfolding update_task check_move
project_unchecked caller task_id k missing task project db found allowed dated there absent = (
  simp (found, allowed, dated, there) (_, refl, refl, refl),
  simp (found, allowed, dated, absent) refl,
)
