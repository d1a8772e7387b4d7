-- ===== src/Repositories.antt =====
-- The look-ups of app/repositories that the services make: by primary key, not soft-deleted, and the
-- membership and assignment queries.
pub mod Lookups
use pro_lens_backend.Base.{
  ℕ, Bool, true, false, Option, none, some, List, [], ◌∷◌, ◌&&◌, ◌==◌, is_none, same_id, find, any,
  count, select, if◌then◌else◌, text_eq, strip, lower, not,
}
use pro_lens_backend.Config.{Text}
use pro_lens_backend.Enums.{UserRole, is_admin, is_active}
use pro_lens_backend.Model.{
  Db, Organization, Designation, User, Project, ProjectMember, Feature, FeatureMember, Task,
  TaskAssignee, LeaveLog,
}

-- `None` for a missing row, and for one whose `deleted_at` (or `removed_at`) is set.
abbrev pub live {ℓ} : {A : Type ℓ} → (A → Option ℕ) → Option A → Option A
live ended none = none
live ended (some a) = if is_none (ended a) then some a else none

-- `BaseRepository.get_by_id`
abbrev pub by_id {ℓ} : {A : Type ℓ} → (A → ℕ) → ℕ → List A → Option A
by_id key k = find (λ a. key a == k)

unfoldable pub active_organization : ℕ → Db → Option Organization
active_organization k db =
    live (λ (o : Organization). o.deleted_at)
      (by_id (λ (o : Organization). o.id) k db.organizations)

unfoldable pub active_designation : ℕ → Db → Option Designation
active_designation k db =
    live (λ (d : Designation). d.deleted_at) (by_id (λ (d : Designation). d.id) k db.designations)

unfoldable pub user_by_id : ℕ → Db → Option User
user_by_id k db = by_id (λ (u : User). u.id) k db.users

unfoldable pub active_user : ℕ → Db → Option User
unfolding user_by_id
active_user k db = live (λ (u : User). u.deleted_at) (user_by_id k db)

-- Case-insensitive, and of any row, deleted ones too.
unfoldable pub user_by_email : Text → Db → Option User
user_by_email email db = find (λ (u : User). text_eq (lower u.email) (lower (strip email))) db.users

-- The WHERE clause of `count_active_admins`
unfoldable pub is_active_admin_of : ℕ → User → Bool
is_active_admin_of org u =
    same_id u.organization_id (some org)
    && is_admin u.role
    && is_active u.status
    && is_none u.deleted_at

unfoldable pub count_active_admins : ℕ → ℕ → Db → ℕ
unfolding is_active_admin_of
count_active_admins org exclude_user_id db =
    count (λ (u : User). is_active_admin_of org u && not (u.id == exclude_user_id)) db.users

unfoldable pub project_by_id : ℕ → Db → Option Project
project_by_id k db = by_id (λ (p : Project). p.id) k db.projects

unfoldable pub active_project : ℕ → Db → Option Project
unfolding project_by_id
active_project k db = live (λ (p : Project). p.deleted_at) (project_by_id k db)

-- The active membership of a user in a project.
abbrev pub is_membership : ℕ → ℕ → ProjectMember → Bool
is_membership project_id user_id m =
    (m.project_id == project_id) && (m.user_id == user_id) && is_none m.removed_at

unfoldable pub is_member : ℕ → ℕ → Db → Bool
is_member project_id user_id db = any (is_membership project_id user_id) db.project_members

unfoldable pub feature_by_id : ℕ → Db → Option Feature
feature_by_id k db = by_id (λ (f : Feature). f.id) k db.features

unfoldable pub active_feature : ℕ → Db → Option Feature
unfolding feature_by_id
active_feature k db = live (λ (f : Feature). f.deleted_at) (feature_by_id k db)

unfoldable pub task_by_id : ℕ → Db → Option Task
task_by_id k db = by_id (λ (t : Task). t.id) k db.tasks

unfoldable pub active_task : ℕ → Db → Option Task
unfolding task_by_id
active_task k db = live (λ (t : Task). t.deleted_at) (task_by_id k db)

-- `FeatureRepository.count_active_tasks`
abbrev pub is_active_task_of : ℕ → Task → Bool
is_active_task_of feature_id t = same_id t.feature_id (some feature_id) && is_none t.deleted_at

unfoldable pub count_feature_tasks : ℕ → Db → ℕ
count_feature_tasks feature_id db = count (is_active_task_of feature_id) db.tasks

-- `ProjectRepository.count_active_tasks`: tasks joined to their features. Feature ids are unique, so
-- the join counts each task once.
abbrev pub is_active_feature_of : ℕ → Feature → Bool
is_active_feature_of project_id f = (f.project_id == project_id) && is_none f.deleted_at

abbrev pub in_active_feature_of : ℕ → Db → Task → Bool
in_active_feature_of project_id db t =
    any (λ (f : Feature). is_active_feature_of project_id f && same_id t.feature_id (some f.id))
      db.features
    && is_none t.deleted_at

unfoldable pub count_project_tasks : ℕ → Db → ℕ
count_project_tasks project_id db = count (in_active_feature_of project_id db) db.tasks

abbrev pub is_assignment : ℕ → ℕ → TaskAssignee → Bool
is_assignment task_id user_id a =
    (a.task_id == task_id) && (a.user_id == user_id) && is_none a.removed_at

unfoldable pub is_active_assignee : ℕ → ℕ → Db → Bool
is_active_assignee task_id user_id db = any (is_assignment task_id user_id) db.task_assignees

abbrev pub is_feature_membership : ℕ → ℕ → FeatureMember → Bool
is_feature_membership feature_id user_id m =
    (m.feature_id == feature_id) && (m.user_id == user_id) && is_none m.removed_at

unfoldable pub is_feature_member : ℕ → ℕ → Db → Bool
is_feature_member feature_id user_id db =
    any (is_feature_membership feature_id user_id) db.feature_members
