-- ===== src/Members.antt =====
-- app/services/project_member_service.py: who is added to a project and removed from it.
pub mod FeatureMembers
pub mod Adding
pub mod Addresses
pub mod Unique
mod Tests
use pro_lens_backend.Base.{
  ℕ, Bool, true, false, Option, none, some, List, [], ◌∷◌, ◌++◌, ◌==◌, ◌&&◌, ◌||◌, not, same_id,
  is_none, any, Result, ok, err, ◌>>=◌, ◌>>◌, raise_if, raise_unless, or_raise, update_where,
  if◌then◌else◌, strip, lower,
}
use pro_lens_backend.Config.{Text, Settings}
use pro_lens_backend.Errors.{Error, Violation}
use pro_lens_backend.Enums.{UserRole, UserStatus, is_admin, is_manager, is_employee, is_active}
use pro_lens_backend.Model.{Db, User, Project, ProjectMember}
use pro_lens_backend.Outbox.{enqueue_email}
use pro_lens_backend.Repositories.{
  live, by_id, active_project, active_user, user_by_id, user_by_email, is_member,
}

pub record ProjectMemberCreate : Type 0 where
  pub project_id : ℕ
  pub user_id : Option ℕ
  pub email : Option Text

-- What the code takes from outside: the hash of a random password, and the subject and the two
-- bodies of the email to a new member of a project.
pub record Outside : Type 0 where
  pub random_password_hash : Text
  pub project_member_added : User → Project → User → Text × Text × Option Text

-- The check constraint `ck_users_employee_requires_designation` of the users table.
abbrev pub violates_designation_check : User → Bool
violates_designation_check u = is_employee u.role && is_none u.designation_id

-- `UserRepository.add`: the flush raises IntegrityError if the row breaks the check constraint.
unfoldable pub add_user : User → Db → Result Db
add_user u db = do
  raise_if (violates_designation_check u) (Error.integrity_error Violation.check)
  ok (record db { users = db.users ++ u ∷ [] })

abbrev pub invited_user : ℕ → ℕ → Text → Text → User
invited_user new_id org email password_hash = record {
  id = new_id;
  organization_id = some org;
  designation_id = none;
  email = email;
  password_hash = some password_hash;
  sso_subject_id = none;
  first_name = none;
  last_name = none;
  role = UserRole.employee;
  status = UserStatus.active;
  deleted_at = none;
  deleted_by = none;
}

-- `target = existing_user`, or a new user for an unknown address.
unfoldable pub existing_or_invited : Option User → ℕ → ℕ → Text → Text → Db → Result (User × Db)
unfolding add_user
existing_or_invited (some u) new_id org email password_hash db = ok (u, db)
existing_or_invited none new_id org email password_hash db = do
  db' ← add_user (invited_user new_id org email password_hash) db
  ok (invited_user new_id org email password_hash, db')

unfoldable pub resolve_target : Outside → ℕ → ℕ → Option ℕ → Option Text → Db → Result (User × Db)
unfolding existing_or_invited
resolve_target outside new_id org (some user_id) email db = do
  user ← or_raise (active_user user_id db) Error.user_not_found
  ok (user, db)
resolve_target outside new_id org none (some email) db =
    existing_or_invited (user_by_email (lower (strip email)) db) new_id org (lower (strip email))
      outside.random_password_hash db
resolve_target outside new_id org none none db = err (Error.app_exception 422)

-- `_ensure_can_add_member`
unfoldable pub can_add_member : User → User → ℕ → Db → Bool
can_add_member caller target project_id db =
    (is_admin caller.role && (is_manager target.role || is_employee target.role))
    || (is_manager caller.role && (is_employee target.role && is_member project_id caller.id db))

-- A missing user row is an employee-level target.
abbrev pub employee_level : Option User → Bool
employee_level none = true
employee_level (some u) = is_employee u.role

abbrev pub member_level : Option User → Bool
member_level none = true
member_level (some u) = is_manager u.role || is_employee u.role

-- `_ensure_can_remove_member`
unfoldable pub can_remove_member : User → Option User → ℕ → Db → Bool
can_remove_member caller target project_id db =
    (is_admin caller.role && member_level target)
    || (is_manager caller.role && employee_level target && is_member project_id caller.id db)

unfoldable pub notify : Settings → Outside → ℕ → ℕ → ℕ → User → Project → User → Db → Db
notify s outside email_id now org target project caller db =
    if target.id == caller.id
    then db
    else let (subject, text, html) = outside.project_member_added target project caller in
      record db {
        outbox = enqueue_email s email_id now org target.email subject text html db.outbox;
      }

-- The ids are those of the rows that the call may insert: a user, the membership, an email.
unfoldable pub create_project_member :
    Settings
    → Outside
    → ℕ
    → ℕ
    → ℕ
    → ℕ
    → User
    → ProjectMemberCreate
    → Db
    → Result (ProjectMember × Db)
unfolding resolve_target can_add_member notify
create_project_member s outside user_id member_id email_id now caller payload db = do
  org ← or_raise caller.organization_id Error.must_belong_to_organization
  project ← or_raise (active_project payload.project_id db) Error.project_not_found
  raise_unless (project.organization_id == org) Error.project_not_found
  (target, db₁) ← resolve_target outside user_id org payload.user_id payload.email db
  raise_unless (same_id target.organization_id caller.organization_id) Error.user_not_found
  raise_unless (is_active target.status) (Error.app_exception 409)
  raise_unless (can_add_member caller target payload.project_id db₁)
      Error.project_member_mutation_forbidden
  raise_if (is_member payload.project_id target.id db₁) Error.project_member_already_exists
  let member : ProjectMember = record {
    id = member_id;
    organization_id = org;
    project_id = payload.project_id;
    user_id = target.id;
    added_by = caller.id;
    added_at = now;
    removed_at = none;
    removed_by = none;
  }
  ok (
    member,
    notify s outside email_id now org target project caller
        (record db₁ { project_members = db₁.project_members ++ member ∷ [] }),
  )

abbrev pub remove_member : ℕ → ℕ → ProjectMember → ProjectMember
remove_member now by m = record m { removed_at = some now; removed_by = some by }

unfoldable pub delete_project_member : ℕ → ℕ → User → Db → Result Db
unfolding can_remove_member
delete_project_member now member_id caller db = do
  member ←
      or_raise
        (live (λ (m : ProjectMember). m.removed_at)
          (by_id (λ (m : ProjectMember). m.id) member_id db.project_members))
        Error.project_member_not_found
  raise_unless (can_remove_member caller (user_by_id member.user_id db) member.project_id db)
      Error.project_member_mutation_forbidden
  ok (record db {
    project_members =
        update_where (λ (m : ProjectMember). m.id == member.id) (remove_member now caller.id)
          db.project_members;
  })
