-- ===== src/Projects.antt =====
-- app/services/project_service.py: projects are made, changed and soft-deleted.
pub mod Features
pub mod DirectTasks
use pro_lens_backend.Base.{
  ℕ, Bool, true, false, Option, none, some, List, [], ◌∷◌, ◌++◌, ◌==◌, ◌&&◌, ◌||◌, ltb, Result, ok,
  err, ◌>>=◌, ◌>>◌, raise_if, raise_unless, or_raise, update_where, if◌then◌else◌,
}
use pro_lens_backend.Config.{Text}
use pro_lens_backend.Errors.{Error}
use pro_lens_backend.Enums.{UserRole, ProjectStatus, is_admin_role, is_manager}
use pro_lens_backend.Model.{Db, User, Project, ProjectMember, Feature}
use pro_lens_backend.Repositories.{
  active_project, is_member, count_project_tasks, is_active_feature_of,
}

-- `update_data.get(field, current)`, and what `setattr` leaves in the field.
abbrev pub set_or {ℓ} : {A : Type ℓ} → Option A → A → A
set_or none current = current
set_or (some a) current = a

-- `start is not None and end is not None and start > end`
abbrev pub dates_reversed : Option ℕ → Option ℕ → Bool
dates_reversed (some a) (some b) = ltb b a
dates_reversed _ _ = false

pub record ProjectCreate : Type 0 where
  pub name : Text
  pub description : Option Text
  pub client_name : Option Text
  pub client_contact : Option Text
  pub start_date : Option ℕ
  pub end_date : Option ℕ
  pub budget : Option ℕ

-- `model_dump(exclude_unset=True)`: the fields that the request sets.
pub record ProjectUpdate : Type 0 where
  pub name : Option Text
  pub description : Option (Option Text)
  pub client_name : Option (Option Text)
  pub client_contact : Option (Option Text)
  pub start_date : Option (Option ℕ)
  pub end_date : Option (Option ℕ)
  pub status : Option ProjectStatus
  pub budget : Option (Option ℕ)

-- Whether `_authorize_mutation` returns, and so for features and feature members: admins always,
-- managers in the projects that they are a member of.
abbrev pub may_manage_project : User → ℕ → Db → Bool
may_manage_project caller project_id db =
    is_admin_role caller.role || (is_manager caller.role && is_member project_id caller.id db)

-- `create_project`, with the ids of the two new rows.
unfoldable pub create_project : ℕ → ℕ → ℕ → User → ProjectCreate → Db → Result (Project × Db)
create_project project_id member_id now caller payload db = do
  org ← or_raise caller.organization_id Error.must_belong_to_organization
  let project : Project = record {
    id = project_id;
    organization_id = org;
    name = payload.name;
    description = payload.description;
    client_name = payload.client_name;
    client_contact = payload.client_contact;
    start_date = payload.start_date;
    end_date = payload.end_date;
    status = ProjectStatus.active;
    budget = payload.budget;
    created_by = caller.id;
    updated_by = none;
    created_at = now;
    deleted_at = none;
    deleted_by = none;
  }
  let member : ProjectMember = record {
    id = member_id;
    organization_id = org;
    project_id = project_id;
    user_id = caller.id;
    added_by = caller.id;
    added_at = now;
    removed_at = none;
    removed_by = none;
  }
  ok (
    project,
    record db {
      projects = db.projects ++ project ∷ [];
      project_members = db.project_members ++ member ∷ [];
    },
  )

abbrev pub apply_project_update : ProjectUpdate → User → Project → Project
apply_project_update u caller p = record p {
  name = set_or u.name p.name;
  description = set_or u.description p.description;
  client_name = set_or u.client_name p.client_name;
  client_contact = set_or u.client_contact p.client_contact;
  start_date = set_or u.start_date p.start_date;
  end_date = set_or u.end_date p.end_date;
  status = set_or u.status p.status;
  budget = set_or u.budget p.budget;
  updated_by = some caller.id;
}

unfoldable pub update_project : ℕ → ProjectUpdate → User → Db → Result (Project × Db)
update_project project_id payload caller db = do
  project ← or_raise (active_project project_id db) Error.project_not_found
  raise_unless (may_manage_project caller project.id db) Error.project_mutation_forbidden
  raise_if
      (dates_reversed (set_or payload.start_date project.start_date)
        (set_or payload.end_date project.end_date))
      (Error.app_exception 422)
  ok (
    apply_project_update payload caller project,
    record db {
      projects =
          update_where (λ (p : Project). p.id == project.id) (apply_project_update payload caller)
            db.projects;
    },
  )

abbrev pub soft_delete_project : ℕ → ℕ → Project → Project
soft_delete_project now by p = record p { deleted_at = some now; deleted_by = some by }

abbrev pub soft_delete_feature : ℕ → ℕ → Feature → Feature
soft_delete_feature now by f = record f { deleted_at = some now; deleted_by = some by }

-- `delete_project`: refused while one of its features has a task; its features go with it.
unfoldable pub delete_project : ℕ → ℕ → User → Db → Result Db
delete_project now project_id caller db = do
  project ← or_raise (active_project project_id db) Error.project_not_found
  raise_unless (may_manage_project caller project.id db) Error.project_mutation_forbidden
  raise_if (ltb 0 (count_project_tasks project_id db)) Error.project_has_tasks
  ok (record db {
    features =
        update_where (is_active_feature_of project_id) (soft_delete_feature now caller.id)
          db.features;
    projects =
        update_where (λ (p : Project). p.id == project.id) (soft_delete_project now caller.id)
          db.projects;
  })
