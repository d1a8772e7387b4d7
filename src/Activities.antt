-- ===== src/Activities.antt =====
-- app/services/activity.py and app/services/activity_assignee.py, with their repositories.
pub mod Logged
mod Tests
pub mod TimeLogs
use pro_lens_backend.Base.{
  ℕ, Bool, true, false, Option, none, some, List, [], ◌∷◌, ◌++◌, ◌==◌, ◌&&◌, ◌||◌, not, same_id,
  is_none, any, Result, ok, ◌>>=◌, ◌>>◌, raise_if, raise_unless, or_raise, update_where,
  if◌then◌else◌,
}
use pro_lens_backend.Config.{Text}
use pro_lens_backend.Errors.{Error, Violation}
use pro_lens_backend.Enums.{
  UserRole, EntityStatus, is_admin_role, is_super_admin, is_manager, is_employee, is_active,
}
use pro_lens_backend.Model.{Db, User, Project, Activity, ActivityAssignee}
use pro_lens_backend.Repositories.{live, by_id, active_project, active_user, is_member}
use pro_lens_backend.Projects.{set_or}

pub record ActivityCreate : Type 0 where
  pub project_id : Option ℕ
  pub name : Text
  pub description : Option Text

pub record ActivityUpdate : Type 0 where
  pub name : Option Text
  pub description : Option (Option Text)
  pub status : Option EntityStatus

pub record ActivityAssigneeCreate : Type 0 where
  pub activity_id : ℕ
  pub user_id : ℕ

unfoldable pub activity_by_id : ℕ → Db → Option Activity
activity_by_id k db = by_id (λ (a : Activity). a.id) k db.activities

unfoldable pub active_activity : ℕ → Db → Option Activity
unfolding activity_by_id
active_activity k db = live (λ (a : Activity). a.deleted_at) (activity_by_id k db)

abbrev pub is_activity_assignment : ℕ → ℕ → ActivityAssignee → Bool
is_activity_assignment activity_id user_id a =
    (a.activity_id == activity_id) && (a.user_id == user_id) && is_none a.removed_at

unfoldable pub is_activity_assignee : ℕ → ℕ → Db → Bool
is_activity_assignee activity_id user_id db =
    any (is_activity_assignment activity_id user_id) db.activity_assignees

unfoldable pub get_visible_activity : ℕ → User → Db → Result Activity
unfolding active_activity
get_visible_activity activity_id caller db = do
  activity ← or_raise (active_activity activity_id db) (Error.app_exception 404)
  raise_unless
      (is_super_admin caller.role || same_id (some activity.organization_id) caller.organization_id)
      (Error.app_exception 404)
  ok activity

-- A manager writes the activities of their projects, and those without a project that they made.
abbrev pub manages_activity : User → Activity → Option ℕ → Db → Bool
manages_activity caller activity none db = activity.created_by == caller.id
manages_activity caller activity (some project_id) db = is_member project_id caller.id db

-- `ActivityService.can_write`
unfoldable pub can_write_activity : User → Activity → Db → Bool
unfolding is_activity_assignee
can_write_activity caller activity db =
    is_admin_role caller.role
    || (is_manager caller.role && manages_activity caller activity activity.project_id db)
    || (is_employee caller.role
        && (activity.created_by == caller.id || is_activity_assignee activity.id caller.id db))

-- The project of a new activity
abbrev pub check_activity_project : Option ℕ → User → Db → Result (Unit {0})
check_activity_project none caller db = ok tt
check_activity_project (some project_id) caller db = do
  project ← or_raise (active_project project_id db) Error.project_not_found
  raise_unless (same_id (some project.organization_id) caller.organization_id)
      Error.project_not_found
  raise_unless (is_admin_role caller.role || is_member project.id caller.id db)
      Error.not_project_member

-- The column `organization_id` refuses a caller without an organization.
unfoldable pub create_activity : ℕ → ℕ → ActivityCreate → User → Db → Result (Activity × Db)
create_activity new_id now payload caller db = do
  check_activity_project payload.project_id caller db
  org ← or_raise caller.organization_id (Error.integrity_error Violation.not_null)
  let activity : Activity = record {
    id = new_id;
    organization_id = org;
    project_id = payload.project_id;
    name = payload.name;
    description = payload.description;
    status = EntityStatus.to_do;
    created_by = caller.id;
    updated_by = none;
    created_at = now;
    deleted_at = none;
    deleted_by = none;
  }
  ok (activity, record db { activities = db.activities ++ activity ∷ [] })

abbrev pub apply_activity_update : ActivityUpdate → User → Activity → Activity
apply_activity_update u caller a = record a {
  name = set_or u.name a.name;
  description = set_or u.description a.description;
  status = set_or u.status a.status;
  updated_by = some caller.id;
}

unfoldable pub update_activity : ℕ → ActivityUpdate → User → Db → Result (Activity × Db)
unfolding get_visible_activity can_write_activity
update_activity activity_id payload caller db = do
  activity ← get_visible_activity activity_id caller db
  raise_unless (can_write_activity caller activity db) Error.insufficient_permission
  ok (
    apply_activity_update payload caller activity,
    record db {
      activities =
          update_where (λ (a : Activity). a.id == activity.id)
            (apply_activity_update payload caller) db.activities;
    },
  )

abbrev pub soft_delete_activity : ℕ → ℕ → Activity → Activity
soft_delete_activity now by a = record a { deleted_at = some now; deleted_by = some by }

unfoldable pub delete_activity : ℕ → ℕ → User → Db → Result Db
unfolding get_visible_activity can_write_activity
delete_activity now activity_id caller db = do
  activity ← get_visible_activity activity_id caller db
  raise_unless (can_write_activity caller activity db) Error.insufficient_permission
  ok (record db {
    activities =
        update_where (λ (a : Activity). a.id == activity.id) (soft_delete_activity now caller.id)
          db.activities;
  })

-- `activity.project_id is not None and not self.projects.is_member(...)`
abbrev pub outside_activity_project : Option ℕ → ℕ → Db → Bool
outside_activity_project none user_id db = false
outside_activity_project (some project_id) user_id db = not (is_member project_id user_id db)

-- `ActivityAssigneeService.create_assignee`. After the query for an assignment the unique index on
-- active (activity, user) cannot fail, unless another request commits in between, with the same error.
unfoldable pub create_activity_assignee :
    ℕ → ℕ → ActivityAssigneeCreate → User → Db → Result (ActivityAssignee × Db)
unfolding get_visible_activity can_write_activity is_activity_assignee
create_activity_assignee new_id now payload caller db = do
  raise_unless (is_admin_role caller.role || is_manager caller.role) Error.insufficient_permission
  activity ← get_visible_activity payload.activity_id caller db
  raise_unless (can_write_activity caller activity db) Error.insufficient_permission
  user ← or_raise (active_user payload.user_id db) Error.user_not_found
  raise_unless
      (is_active user.status && same_id user.organization_id (some activity.organization_id))
      Error.user_not_found
  raise_if (outside_activity_project activity.project_id user.id db) (Error.app_exception 422)
  raise_if (is_activity_assignee activity.id user.id db) (Error.app_exception 409)
  let assignee : ActivityAssignee = record {
    id = new_id;
    organization_id = activity.organization_id;
    activity_id = activity.id;
    user_id = user.id;
    assigned_by = caller.id;
    assigned_at = now;
    removed_at = none;
    removed_by = none;
  }
  ok (assignee, record db { activity_assignees = db.activity_assignees ++ assignee ∷ [] })

abbrev pub remove_activity_assignee : ℕ → ℕ → ActivityAssignee → ActivityAssignee
remove_activity_assignee now by a = record a { removed_at = some now; removed_by = some by }

-- `ActivityAssigneeService.delete_assignee`
unfoldable pub delete_activity_assignee : ℕ → ℕ → User → Db → Result Db
unfolding get_visible_activity can_write_activity
delete_activity_assignee now assignee_id caller db = do
  raise_unless (is_admin_role caller.role || is_manager caller.role) Error.insufficient_permission
  assignee ←
      or_raise
        (live (λ (a : ActivityAssignee). a.removed_at)
          (by_id (λ (a : ActivityAssignee). a.id) assignee_id db.activity_assignees))
        (Error.app_exception 404)
  activity ← get_visible_activity assignee.activity_id caller db
  raise_unless (can_write_activity caller activity db) Error.insufficient_permission
  ok (record db {
    activity_assignees =
        update_where (λ (a : ActivityAssignee). a.id == assignee.id)
          (remove_activity_assignee now caller.id) db.activity_assignees;
  })
