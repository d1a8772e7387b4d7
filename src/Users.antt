-- ===== src/Users.antt =====
-- app/services/user_service.py: accounts are made, changed and soft-deleted, and their sessions revoked.
-- The tests on roles and the guards are here; the operations are in Users/Operations.
pub mod Operations
pub mod Rows
pub mod LastAdmin
pub mod Soundness
pub mod Reach
pub mod Rights
pub mod Privileges
pub mod Deletion
mod Tests
use pro_lens_backend.Base.{
  ℕ, Bool, true, false, Option, none, some, List, [], ◌∷◌, ◌==◌, ◌&&◌, ◌||◌, not, same_id, is_none,
  Result, ok, err, ◌>>=◌, ◌>>◌, raise_if, raise_unless, or_raise, if◌then◌else◌,
}
use pro_lens_backend.Config.{Text}
use pro_lens_backend.Errors.{Error}
use pro_lens_backend.Enums.{UserRole, UserStatus, is_super_admin, is_admin, is_employee, is_active}
use pro_lens_backend.Model.{Db, User, Designation}
use pro_lens_backend.Repositories.{active_designation, count_active_admins}

pub record UserCreate : Type 0 where
  pub email : Text
  pub password : Option Text
  pub first_name : Option Text
  pub last_name : Option Text
  pub role : UserRole
  pub designation_id : Option ℕ
  pub designation_name : Option Text
  pub organization_id : Option ℕ

-- `model_dump(exclude_unset=True)`: the fields that the request sets. The schema refuses a null role,
-- status or password.
pub record UserUpdate : Type 0 where
  pub first_name : Option (Option Text)
  pub last_name : Option (Option Text)
  pub role : Option UserRole
  pub status : Option UserStatus
  pub designation_id : Option (Option ℕ)
  pub password : Option Text
  pub current_password : Option (Option Text)

-- What the code takes from bcrypt and `secrets`; a hash has a fresh salt, which the given function
-- has already drawn.
pub record Passwords : Type 0 where
  pub random_password : Text
  pub hash_password : Text → Text
  pub verify_password : Text → Text → Bool

-- `==` on roles and on statuses
abbrev pub same_role : UserRole → UserRole → Bool
same_role UserRole.super_admin UserRole.super_admin = true
same_role UserRole.admin UserRole.admin = true
same_role UserRole.manager UserRole.manager = true
same_role UserRole.employee UserRole.employee = true
same_role _ _ = false

abbrev pub same_status : UserStatus → UserStatus → Bool
same_status UserStatus.invited UserStatus.invited = true
same_status UserStatus.active UserStatus.active = true
same_status UserStatus.suspended UserStatus.suspended = true
same_status _ _ = false

-- `_validate_role_assignment`
abbrev pub validate_role_assignment : User → UserRole → Result (Unit {0})
validate_role_assignment caller role =
    raise_if (not (is_super_admin caller.role) && is_super_admin role) Error.invalid_role_assignment

-- `a or b` on ids
abbrev pub first_id : Option ℕ → Option ℕ → Option ℕ
first_id none b = b
first_id (some a) b = some a

-- `_resolve_organization_id`
unfoldable pub resolve_organization_id : User → Option ℕ → Result ℕ
resolve_organization_id caller organization_id =
    if is_super_admin caller.role
    then or_raise (first_id organization_id caller.organization_id) Error.organization_id_required
    else (do
      raise_unless (is_none organization_id || same_id organization_id caller.organization_id)
          Error.cross_organization_forbidden
      or_raise caller.organization_id Error.organization_id_required)

-- `_validate_designation`
unfoldable pub validate_designation : ℕ → Option ℕ → Db → Result (Unit {0})
validate_designation designation_id organization_id db = do
  designation ← or_raise (active_designation designation_id db) Error.designation_not_found
  raise_unless (same_id (some designation.organization_id) organization_id)
      Error.designation_not_found

-- `_require_designation_for_employee`
abbrev pub require_designation_for_employee : UserRole → Option ℕ → Result (Unit {0})
require_designation_for_employee role designation_id =
    raise_if (is_employee role && is_none designation_id) (Error.app_exception 422)

abbrev pub sets {ℓ} : {A : Type ℓ} → Option A → Bool
sets o = not (is_none o)

abbrev pub changes_role : Option UserRole → UserRole → Bool
changes_role none role = false
changes_role (some new) role = not (same_role new role)

abbrev pub changes_status : Option UserStatus → UserStatus → Bool
changes_status none status = false
changes_status (some new) status = not (same_status new status)

abbrev pub validate_new_role : User → Option UserRole → Result (Unit {0})
validate_new_role caller none = ok tt
validate_new_role caller (some role) = validate_role_assignment caller role

-- The fields outside `SELF_SERVICE_FIELDS`.
abbrev pub sets_disallowed : UserUpdate → Bool
sets_disallowed u = sets u.role || (sets u.status || sets u.designation_id)

unfoldable pub authorize_admin : User → User → UserUpdate → Bool → Result (Unit {0})
authorize_admin caller user u is_self = do
  raise_if (is_super_admin user.role) Error.insufficient_permission
  raise_unless (same_id user.organization_id caller.organization_id)
      Error.cross_organization_forbidden
  validate_new_role caller u.role
  raise_if
      (if is_self
        then changes_role u.role user.role || changes_status u.status user.status
        else sets u.password)
      Error.field_not_editable

-- `_authorize_update`
unfoldable pub authorize_update : User → User → UserUpdate → Bool → Result (Unit {0})
unfolding authorize_admin
authorize_update caller user u is_self =
    if is_super_admin caller.role
    then ok tt
    else if is_admin caller.role
    then authorize_admin caller user u is_self
    else (do
      raise_unless is_self Error.insufficient_permission
      raise_if (sets_disallowed u) Error.field_not_editable)

abbrev pub matches_password : Passwords → Option (Option Text) → Text → Bool
matches_password p (some (some current)) hash = p.verify_password current hash
matches_password p _ hash = false

-- `_apply_password_change`: the new hash, if the password changes.
unfoldable pub change_password :
    Passwords → Option Text → Option Text → Option (Option Text) → Result (Option Text)
change_password p stored none current = ok none
change_password p none (some password) current = err (Error.app_exception 422)
change_password p (some hash) (some password) current = do
  raise_unless (matches_password p current hash) (Error.app_exception 403)
  ok (some (p.hash_password password))

-- `_assert_not_last_admin`
abbrev pub last_admin_in : Option ℕ → ℕ → Db → Bool
last_admin_in none user_id db = false
last_admin_in (some org) user_id db = count_active_admins org user_id db == 0

unfoldable pub assert_not_last_admin : User → Db → Result (Unit {0})
assert_not_last_admin user db =
    raise_if
      (is_admin user.role && is_active user.status && last_admin_in user.organization_id user.id db)
      Error.cannot_delete_last_admin
