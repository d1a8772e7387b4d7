-- ===== src/Tasks.antt =====
-- app/services/task_service.py: who may write a task, and how tasks are made, changed and deleted.
pub mod Assignees
pub mod Access
pub mod Leave
mod Tests
pub mod Updates
use pro_lens_backend.Base.{
  ℕ, Bool, true, false, Option, none, some, List, [], ◌∷◌, ◌++◌, ◌==◌, ◌&&◌, ◌||◌, not, same_id,
  is_none, Result, ok, err, ◌>>=◌, ◌>>◌, raise_if, raise_unless, or_raise, update_where,
  if◌then◌else◌,
}
use pro_lens_backend.Config.{Text}
use pro_lens_backend.Errors.{Error, Violation}
use pro_lens_backend.Enums.{
  UserRole, EntityStatus, PriorityLevel, is_admin_role, is_manager, is_employee,
}
use pro_lens_backend.Model.{Db, User, Project, Feature, Task}
use pro_lens_backend.Repositories.{
  project_by_id, active_project, active_feature, feature_by_id, active_task, is_member,
  is_active_assignee,
}
use pro_lens_backend.Projects.{set_or, dates_reversed}

pub record TaskCreate : Type 0 where
  pub project_id : Option ℕ
  pub feature_id : Option ℕ
  pub name : Text
  pub description : Option Text
  pub priority : Option PriorityLevel
  pub estimated_hours : Option ℕ
  pub labels : Option (List Text)
  pub subtasks : Option (List Text)
  pub start_date : Option ℕ
  pub due_date : Option ℕ

pub record TaskUpdate : Type 0 where
  pub project_id : Option (Option ℕ)
  pub feature_id : Option (Option ℕ)
  pub name : Option Text
  pub description : Option (Option Text)
  pub status : Option EntityStatus
  pub priority : Option PriorityLevel
  pub estimated_hours : Option (Option ℕ)
  pub labels : Option (Option (List Text))
  pub subtasks : Option (Option (List Text))
  pub start_date : Option (Option ℕ)
  pub due_date : Option (Option ℕ)

-- `x or []`: an empty list stays one.
abbrev or_empty : Option (List Text) → Option (List Text)
or_empty none = some []
or_empty (some xs) = some xs

-- `project_id is not None and self.projects.is_member(...)`, with `_feature_project_id`: a feature
-- counts here even if it is soft-deleted.
abbrev pub in_feature_project : Option Feature → ℕ → Db → Bool
in_feature_project none user_id db = false
in_feature_project (some f) user_id db = is_member f.project_id user_id db

abbrev pub manages : User → Option ℕ → ℕ → Db → Bool
manages caller none created_by db = created_by == caller.id
manages caller (some f) created_by db = in_feature_project (feature_by_id f db) caller.id db

unfoldable pub can_manage : User → Task → Db → Bool
can_manage caller task db =
    is_admin_role caller.role
    || (is_manager caller.role && manages caller task.feature_id task.created_by db)

unfoldable pub can_write : User → Task → Bool → Db → Bool
unfolding can_manage
can_write caller task for_delete db =
    if is_admin_role caller.role || is_manager caller.role
    then can_manage caller task db
    else is_employee caller.role
      && (is_active_assignee task.id caller.id db || (for_delete && task.created_by == caller.id))

unfoldable pub get_usable_feature : ℕ → ℕ → Db → Result Feature
get_usable_feature feature_id organization_id db = do
  feature ← or_raise (active_feature feature_id db) Error.feature_not_found
  raise_unless (feature.organization_id == organization_id) Error.feature_not_found
  project ← or_raise (active_project feature.project_id db) Error.project_not_found
  ok feature

-- `caller.role not in ADMIN_ROLES and not is_member(...)` raises.
abbrev pub require_membership : User → ℕ → Db → Result (Unit {0})
require_membership caller project_id db =
    raise_unless (is_admin_role caller.role || is_member project_id caller.id db)
      Error.not_project_member

-- The project of a new task: its feature's, or else the one that is asked for.
unfoldable pub resolve_project : User → ℕ → Option ℕ → Option ℕ → Db → Result (Option ℕ)
unfolding get_usable_feature
resolve_project caller org (some feature_id) project_id db = do
  feature ← get_usable_feature feature_id org db
  require_membership caller feature.project_id db
  ok (some feature.project_id)
resolve_project caller org none (some project_id) db = do
  project ← or_raise (active_project project_id db) Error.project_not_found
  raise_unless (project.organization_id == org) Error.project_not_found
  require_membership caller project_id db
  ok (some project_id)
resolve_project caller org none none db = ok none

unfoldable pub create_task : ℕ → ℕ → User → TaskCreate → Db → Result (Task × Db)
unfolding resolve_project
create_task new_id now caller payload db = do
  org ← or_raise caller.organization_id Error.must_belong_to_organization
  project_id ← resolve_project caller org payload.feature_id payload.project_id db
  let task : Task = record {
    id = new_id;
    organization_id = org;
    feature_id = payload.feature_id;
    project_id = project_id;
    name = payload.name;
    description = payload.description;
    status = EntityStatus.to_do;
    priority = set_or payload.priority PriorityLevel.medium;
    estimated_hours = payload.estimated_hours;
    labels = or_empty payload.labels;
    subtasks = or_empty payload.subtasks;
    start_date = payload.start_date;
    due_date = payload.due_date;
    created_by = caller.id;
    updated_by = none;
    created_at = now;
    deleted_at = none;
    deleted_by = none;
  }
  ok (task, record db { tasks = db.tasks ++ task ∷ [] })

-- `_authorize_move`
unfoldable pub authorize_move : User → Task → Option ℕ → Db → Result (Unit {0})
unfolding get_usable_feature
authorize_move caller task none db =
    raise_unless (is_admin_role caller.role || is_manager caller.role) Error.insufficient_permission
authorize_move caller task (some feature_id) db = do
  raise_unless (is_admin_role caller.role || is_manager caller.role) Error.insufficient_permission
  feature ← get_usable_feature feature_id task.organization_id db
  require_membership caller feature.project_id db

-- The move is checked only if the request sets another feature. (An unchanged feature that an
-- employee sends is dropped from the update, which writes back what is there.)
unfoldable pub check_move : User → Task → Option (Option ℕ) → Db → Result (Unit {0})
unfolding authorize_move
check_move caller task none db = ok tt
check_move caller task (some feature_id) db =
    if same_id feature_id task.feature_id then ok tt else authorize_move caller task feature_id db

abbrev pub apply_task_update : TaskUpdate → User → Task → Task
apply_task_update u caller t = record t {
  project_id = set_or u.project_id t.project_id;
  feature_id = set_or u.feature_id t.feature_id;
  name = set_or u.name t.name;
  description = set_or u.description t.description;
  status = set_or u.status t.status;
  priority = set_or u.priority t.priority;
  estimated_hours = set_or u.estimated_hours t.estimated_hours;
  labels = set_or u.labels t.labels;
  subtasks = set_or u.subtasks t.subtasks;
  start_date = set_or u.start_date t.start_date;
  due_date = set_or u.due_date t.due_date;
  updated_by = some caller.id;
}

-- The foreign key of `tasks.project_id`. It looks at every row, those of deleted projects and of other
-- organizations too, so a `Db` that a task is updated in holds them.
abbrev pub names_missing_project : Option (Option ℕ) → Db → Bool
names_missing_project (some (some k)) db = is_none (project_by_id k db)
names_missing_project _ db = false

unfoldable pub update_task : User → ℕ → TaskUpdate → Db → Result (Task × Db)
unfolding check_move can_write
update_task caller task_id payload db = do
  task ← or_raise (active_task task_id db) Error.task_not_found
  raise_unless (can_write caller task false db) Error.insufficient_permission
  check_move caller task payload.feature_id db
  raise_if
      (dates_reversed (set_or payload.start_date task.start_date)
        (set_or payload.due_date task.due_date))
      (Error.app_exception 422)
  raise_if (names_missing_project payload.project_id db)
      (Error.integrity_error Violation.foreign_key)
  ok (
    apply_task_update payload caller task,
    record db {
      tasks =
          update_where (λ (t : Task). t.id == task.id) (apply_task_update payload caller) db.tasks;
    },
  )

abbrev pub soft_delete_task : ℕ → ℕ → Task → Task
soft_delete_task now by t = record t { deleted_at = some now; deleted_by = some by }

unfoldable pub delete_task : ℕ → User → ℕ → Db → Result Db
unfolding can_write
delete_task now caller task_id db = do
  task ← or_raise (active_task task_id db) Error.task_not_found
  raise_unless (can_write caller task true db) Error.insufficient_permission
  ok (record db {
    tasks = update_where (λ (t : Task). t.id == task.id) (soft_delete_task now caller.id) db.tasks;
  })
