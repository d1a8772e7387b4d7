-- ===== src/Listings/Visible.antt =====
-- The listings of projects, features and tasks, which show managers and employees only what they take
-- part in: `list_filtered` of app/repositories/project_repository.py, feature_repository.py and
-- task_repository.py, with the services' methods that call them. The insights of projects are left out.
use pro_lens_backend.Base.{
  ℕ, Bool, true, Option, none, some, List, ◌==◌, ◌&&◌, ◌||◌, is_none, same_id, select, sort, any,
  if◌then◌else◌,
}
use pro_lens_backend.Enums.{
  is_admin_role, is_super_admin, EntityStatus, ProjectStatus, PriorityLevel,
}
use pro_lens_backend.Model.{Db, User, Project, Feature, Task}
use pro_lens_backend.Repositories.{is_member, is_active_assignee}
use pro_lens_backend.Listings.{Pagination, is_wanted, is_wanted_link, time_order, page}

-- A filter by a column of an enumeration, whose equality is an argument
abbrev is_wanted_value {ℓ} : {A : Type ℓ} → (A → A → Bool) → Option A → A → Bool
is_wanted_value same none x = true
is_wanted_value same (some w) x = same x w

abbrev entity_status_code : EntityStatus → ℕ
entity_status_code EntityStatus.to_do = 0
entity_status_code EntityStatus.in_progress = 1
entity_status_code EntityStatus.in_review = 2
entity_status_code EntityStatus.done = 3

abbrev project_status_code : ProjectStatus → ℕ
project_status_code ProjectStatus.active = 0
project_status_code ProjectStatus.on_hold = 1
project_status_code ProjectStatus.completed = 2

abbrev priority_code : PriorityLevel → ℕ
priority_code PriorityLevel.low = 0
priority_code PriorityLevel.medium = 1
priority_code PriorityLevel.high = 2
priority_code PriorityLevel.urgent = 3

-- `Project.id.in_(member_project_ids(caller.id))`, unless the role sees all
abbrev pub sees_project : User → Db → ℕ → Bool
sees_project caller db project_id = is_admin_role caller.role || is_member project_id caller.id db

pub record ProjectFilter : Type 0 where
  pub id : Option ℕ
  pub status : Option ProjectStatus
  pub organization_id : Option ℕ

abbrev pub is_listed_project : User → ProjectFilter → Option ℕ → Db → Project → Bool
is_listed_project caller f organization_id db p =
    is_none p.deleted_at
    && sees_project caller db p.id
    && is_wanted f.id p.id
    && is_wanted_value (λ x y. project_status_code x == project_status_code y) f.status p.status
    && is_wanted organization_id p.organization_id

abbrev pub project_order : Project → Project → Bool
project_order a b = time_order a.created_at a.id b.created_at b.id

-- Only super admins filter by an organization.
abbrev pub listed_organization : User → Option ℕ → Option ℕ
listed_organization caller organization_id =
    if is_super_admin caller.role then organization_id else none

unfoldable pub list_projects : User → Pagination → ProjectFilter → Db → List Project
unfolding is_member
list_projects caller w f db = page w (
    sort project_order (
      select (is_listed_project caller f (listed_organization caller f.organization_id) db)
        db.projects))

pub record FeatureFilter : Type 0 where
  pub id : Option ℕ
  pub project_id : Option ℕ
  pub status : Option EntityStatus

abbrev pub is_listed_feature : User → FeatureFilter → Db → Feature → Bool
is_listed_feature caller f db x =
    is_none x.deleted_at
    && sees_project caller db x.project_id
    && is_wanted f.id x.id
    && is_wanted f.project_id x.project_id
    && is_wanted_value (λ s t. entity_status_code s == entity_status_code t) f.status x.status

abbrev pub feature_order : Feature → Feature → Bool
feature_order a b = time_order a.created_at a.id b.created_at b.id

unfoldable pub list_features : User → Pagination → FeatureFilter → Db → List Feature
unfolding is_member
list_features caller w f db =
    page w (sort feature_order (select (is_listed_feature caller f db) db.features))

-- `Task.feature_id.in_(select(Feature.id).where(...))`, over deleted features too
abbrev pub in_feature : (Feature → Bool) → Option ℕ → Db → Bool
in_feature test feature_id db =
    any (λ (x : Feature). same_id (some x.id) feature_id && test x) db.features

unfoldable pub sees_task : User → Db → Task → Bool
unfolding is_member is_active_assignee
sees_task caller db t =
    is_admin_role caller.role
    || in_feature (λ (x : Feature). is_member x.project_id caller.id db) t.feature_id db
    || is_active_assignee t.id caller.id db
    || (is_none t.feature_id && t.created_by == caller.id)

pub record TaskFilter : Type 0 where
  pub id : Option ℕ
  pub project_id : Option ℕ
  pub feature_id : Option ℕ
  pub status : Option EntityStatus
  pub priority : Option PriorityLevel

abbrev in_project : Option ℕ → Db → Task → Bool
in_project none db t = true
in_project (some k) db t =
    same_id t.project_id (some k) || in_feature (λ (x : Feature). x.project_id == k) t.feature_id db

unfoldable pub is_listed_task : User → TaskFilter → Db → Task → Bool
unfolding sees_task
is_listed_task caller f db t =
    is_none t.deleted_at
    && sees_task caller db t
    && is_wanted f.id t.id
    && in_project f.project_id db t
    && is_wanted_link f.feature_id t.feature_id
    && is_wanted_value (λ x y. entity_status_code x == entity_status_code y) f.status t.status
    && is_wanted_value (λ x y. priority_code x == priority_code y) f.priority t.priority

abbrev pub task_order : Task → Task → Bool
task_order a b = time_order a.created_at a.id b.created_at b.id

unfoldable pub list_tasks : User → Pagination → TaskFilter → Db → List Task
unfolding is_listed_task
list_tasks caller w f db = page w (sort task_order (select (is_listed_task caller f db) db.tasks))
