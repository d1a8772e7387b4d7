-- ===== src/Organizations.antt =====
-- app/services/organization_service.py with app/repositories/organization_repository.py.
pub mod Bootstrap
pub mod Designations
mod Tests
use pro_lens_backend.Base.{
  ℕ, Bool, true, false, Option, none, some, List, [], ◌∷◌, ◌++◌, ◌==◌, ◌&&◌, ◌||◌, not, is_none,
  find, Result, ok, ◌>>=◌, ◌>>◌, raise_if, raise_unless, or_raise, update_where, if◌then◌else◌,
  text_eq, lower, strip,
}
use pro_lens_backend.Config.{Text}
use pro_lens_backend.Errors.{Error}
use pro_lens_backend.Enums.{UserRole, OrgStatus}
use pro_lens_backend.Model.{Db, User, Organization}
use pro_lens_backend.Repositories.{active_organization}
use pro_lens_backend.Projects.{set_or}
use pro_lens_backend.Users.{UserCreate, Passwords}
use pro_lens_backend.Users.Operations.{create_user}

pub record OrganizationCreate : Type 0 where
  pub name : Text
  pub domain : Text
  pub admin_email : Option Text
  pub admin_password : Option Text
  pub admin_first_name : Option Text
  pub admin_last_name : Option Text

pub record OrganizationUpdate : Type 0 where
  pub name : Option Text
  pub status : Option OrgStatus

-- Case-insensitive, and of any row, deleted ones too.
unfoldable pub get_by_domain : Text → Db → Option Organization
get_by_domain domain db =
    find (λ (o : Organization). text_eq (lower o.domain) (lower (strip domain))) db.organizations

-- `bool(x)`
abbrev pub truthy : Option Text → Bool
truthy none = false
truthy (some []) = false
truthy (some (_ ∷ _)) = true

-- `bool(a) != bool(b)`
abbrev pub one_missing : Bool → Bool → Bool
one_missing true b = not b
one_missing false b = b

abbrev pub new_organization : ℕ → OrganizationCreate → Organization
new_organization new_id payload = record {
  id = new_id;
  name = payload.name;
  domain = payload.domain;
  status = OrgStatus.active;
  deleted_at = none;
  deleted_by = none;
}

abbrev pub add_organization : Organization → Db → Db
add_organization org db = record db { organizations = db.organizations ++ org ∷ [] }

abbrev pub first_admin : ℕ → OrganizationCreate → Text → UserCreate
first_admin new_id payload email = record {
  email = email;
  password = payload.admin_password;
  first_name = payload.admin_first_name;
  last_name = payload.admin_last_name;
  role = UserRole.admin;
  designation_id = none;
  designation_name = none;
  organization_id = some new_id;
}

-- `if payload.admin_email and payload.admin_password`
abbrev pub add_first_admin :
    Passwords → ℕ → ℕ → ℕ → User → OrganizationCreate → Option Text → Db → Result Db
add_first_admin p designation_id user_id new_id caller payload none db = ok db
add_first_admin p designation_id user_id new_id caller payload (some email) db =
    if truthy (some email) && truthy payload.admin_password
    then (do
      r ← create_user p designation_id user_id caller (first_admin new_id payload email) db
      ok r.1)
    else ok db

-- A domain that the query does not find keeps the unique constraint on domains.
unfoldable pub create_organization :
    Passwords → ℕ → ℕ → ℕ → User → OrganizationCreate → Db → Result (Organization × Db)
unfolding get_by_domain
create_organization p designation_id user_id new_id caller payload db = do
  raise_unless (is_none (get_by_domain payload.domain db)) Error.domain_already_in_use
  raise_if (one_missing (truthy payload.admin_email) (truthy payload.admin_password))
      Error.admin_credentials_incomplete
  db₁ ←
      add_first_admin p designation_id user_id new_id caller payload payload.admin_email
        (add_organization (new_organization new_id payload) db)
  ok (new_organization new_id payload, db₁)

abbrev pub apply_organization_update : OrganizationUpdate → Organization → Organization
apply_organization_update u o = record o {
  name = set_or u.name o.name;
  status = set_or u.status o.status;
}

unfoldable pub update_organization : ℕ → OrganizationUpdate → Db → Result (Organization × Db)
update_organization org_id payload db = do
  org ← or_raise (active_organization org_id db) Error.organization_not_found
  ok (
    apply_organization_update payload org,
    record db {
      organizations =
          update_where (λ (o : Organization). o.id == org.id) (apply_organization_update payload)
            db.organizations;
    },
  )

abbrev pub soft_delete_organization : ℕ → ℕ → Organization → Organization
soft_delete_organization now by o = record o { deleted_at = some now; deleted_by = some by }

unfoldable pub delete_organization : ℕ → ℕ → User → Db → Result Db
delete_organization now org_id caller db = do
  org ← or_raise (active_organization org_id db) Error.organization_not_found
  ok (record db {
    organizations =
        update_where (λ (o : Organization). o.id == org.id) (soft_delete_organization now caller.id)
          db.organizations;
  })
