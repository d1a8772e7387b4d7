-- ===== src/Users/Operations.antt =====
-- `create_user`, `update_user` and `delete_user`.
use pro_lens_backend.Base.{
  ℕ, Bool, false, Option, none, some, List, [], ◌∷◌, ◌++◌, ◌==◌, ◌&&◌, ◌||◌, not, same_id, is_none,
  find, any, Result, ok, ◌>>=◌, ◌>>◌, raise_if, raise_unless, or_raise, if◌then◌else◌, strip, lower,
  text_eq, update_where,
}
use pro_lens_backend.Config.{Text}
use pro_lens_backend.Errors.{Error, Violation}
use pro_lens_backend.Enums.{UserStatus, is_super_admin, is_admin, is_active}
use pro_lens_backend.Model.{Db, User, UserSession, Designation}
use pro_lens_backend.Repositories.{active_user, active_organization, user_by_email}
use pro_lens_backend.Projects.{set_or}
use pro_lens_backend.Members.{add_user}
use pro_lens_backend.Users.{
  UserCreate, UserUpdate, Passwords, validate_role_assignment, resolve_organization_id,
  validate_designation, require_designation_for_employee, authorize_update, change_password,
  assert_not_last_admin, changes_role, changes_status,
}

-- `DesignationRepository.get_active_by_name`
unfoldable pub designation_by_name : ℕ → Text → Db → Option Designation
designation_by_name org name db =
    find
      (λ (d : Designation).
        (d.organization_id == org)
        && (text_eq (lower d.name) (lower (strip name)) && is_none d.deleted_at))
      db.designations

-- The designation that is found by its name, or made.
unfoldable pub designation_named : Option Designation → ℕ → ℕ → Text → Db → Option ℕ × Db
designation_named (some d) new_id org name db = (some d.id, db)
designation_named none new_id org name db = (
  some new_id,
  record db {
    designations =
        db.designations
        ++ record {
          id = new_id;
          organization_id = org;
          name = name;
          deleted_at = none;
          deleted_by = none;
        }
          ∷ [];
  },
)

-- A name counts only if no id is given, and if it is not blank.
unfoldable pub resolve_designation : ℕ → ℕ → Option ℕ → Option Text → Db → Option ℕ × Db
unfolding designation_by_name designation_named
resolve_designation new_id org (some k) name db = (some k, db)
resolve_designation new_id org none none db = (none, db)
resolve_designation new_id org none (some name) db =
    if text_eq (strip name) []
    then (none, db)
    else designation_named (designation_by_name org (strip name) db) new_id org (strip name) db

-- The unique index on the organization and the exact name of a designation, which also counts
-- soft-deleted rows, may refuse the row that is made.
abbrev pub name_indexed : ℕ → Text → Db → Bool
name_indexed org name db =
    any (λ (d : Designation). (d.organization_id == org) && text_eq d.name name) db.designations

unfoldable pub violates_name_index : ℕ → Option ℕ → Option Text → Db → Bool
unfolding designation_by_name
violates_name_index org none (some name) db =
    not (text_eq (strip name) [])
    && is_none (designation_by_name org (strip name) db)
    && name_indexed org (strip name) db
violates_name_index org _ _ db = false

abbrev pub validate_optional_designation : Option ℕ → Option ℕ → Db → Result (Unit {0})
validate_optional_designation none org db = ok tt
validate_optional_designation (some k) org db = validate_designation k org db

-- The ids are those of the rows that the call may insert: a designation, the user.
unfoldable pub create_user : Passwords → ℕ → ℕ → User → UserCreate → Db → Result (User × Db)
unfolding resolve_organization_id resolve_designation violates_name_index
create_user p designation_id user_id caller payload db = do
  raise_unless (is_none (user_by_email (lower (strip payload.email)) db)) Error.email_already_in_use
  validate_role_assignment caller payload.role
  org ← resolve_organization_id caller payload.organization_id
  organization ← or_raise (active_organization org db) Error.organization_not_found
  raise_if (violates_name_index org payload.designation_id payload.designation_name db)
      (Error.integrity_error Violation.unique)
  let (designation, db₁) =
      resolve_designation designation_id org payload.designation_id payload.designation_name db
  validate_optional_designation designation (some org) db₁
  require_designation_for_employee payload.role designation
  let user : User = record {
    id = user_id;
    organization_id = some org;
    designation_id = designation;
    email = lower (strip payload.email);
    password_hash = some (p.hash_password (set_or payload.password p.random_password));
    sso_subject_id = none;
    first_name = payload.first_name;
    last_name = payload.last_name;
    role = payload.role;
    status = UserStatus.active;
    deleted_at = none;
    deleted_by = none;
  }
  db₂ ← add_user user db₁
  ok (user, db₂)

abbrev pub new_hash : Option Text → Option Text → Option Text
new_hash none old = old
new_hash (some h) old = some h

abbrev pub apply_user_update : UserUpdate → Option Text → User → User
apply_user_update u hash user = record user {
  first_name = set_or u.first_name user.first_name;
  last_name = set_or u.last_name user.last_name;
  role = set_or u.role user.role;
  status = set_or u.status user.status;
  designation_id = set_or u.designation_id user.designation_id;
  password_hash = new_hash hash user.password_hash;
}

-- `SessionRepository.revoke` and `revoke_all_for_user`
abbrev pub revoke : ℕ → UserSession → UserSession
revoke now s = record s { revoked_at = some now }

unfoldable pub revoke_all_for_user : ℕ → ℕ → List UserSession → List UserSession
revoke_all_for_user now user_id =
    update_where (λ (s : UserSession). (s.user_id == user_id) && is_none s.revoked_at) (revoke now)

-- A demotion or suspension, or a deletion, of the last active admin is refused.
abbrev pub guards_last_admin : UserUpdate → User → Db → Result (Unit {0})
guards_last_admin u user db =
    if (changes_role u.role user.role || changes_status u.status user.status)
      && not (is_admin (set_or u.role user.role) && is_active (set_or u.status user.status))
    then assert_not_last_admin user db
    else ok tt

abbrev pub validate_new_designation : Option (Option ℕ) → Option ℕ → Db → Result (Unit {0})
validate_new_designation (some (some k)) org db = validate_designation k org db
validate_new_designation _ org db = ok tt

unfoldable pub update_user : Passwords → ℕ → User → ℕ → UserUpdate → Db → Result (User × Db)
unfolding authorize_update change_password revoke_all_for_user
update_user p now caller user_id u db = do
  user ← or_raise (active_user user_id db) Error.user_not_found
  authorize_update caller user u (caller.id == user.id)
  guards_last_admin u user db
  validate_new_designation u.designation_id user.organization_id db
  require_designation_for_employee (set_or u.role user.role)
      (set_or u.designation_id user.designation_id)
  hash ← change_password p user.password_hash u.password u.current_password
  ok (
    apply_user_update u hash user,
    record db {
      users = update_where (λ (x : User). x.id == user.id) (apply_user_update u hash) db.users;
      sessions =
          if not (is_none hash) || not (is_active (set_or u.status user.status))
          then revoke_all_for_user now user.id db.sessions
          else db.sessions;
    },
  )

abbrev pub soft_delete_user : ℕ → ℕ → User → User
soft_delete_user now by user = record user { deleted_at = some now; deleted_by = some by }

unfoldable pub delete_user : ℕ → User → ℕ → Db → Result Db
unfolding assert_not_last_admin revoke_all_for_user
delete_user now caller user_id db = do
  user ← or_raise (active_user user_id db) Error.user_not_found
  raise_if (user.id == caller.id) Error.cannot_delete_self
  raise_if
      (not (is_super_admin caller.role)
        && not (same_id user.organization_id caller.organization_id))
      Error.cannot_delete_privileged_user
  raise_if (not (is_super_admin caller.role) && is_super_admin user.role)
      Error.cannot_delete_privileged_user
  assert_not_last_admin user db
  ok (record db {
    users = update_where (λ (x : User). x.id == user.id) (soft_delete_user now caller.id) db.users;
    sessions = revoke_all_for_user now user.id db.sessions;
  })
