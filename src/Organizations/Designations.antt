-- ===== src/Organizations/Designations.antt =====
-- app/services/designation_service.py with app/repositories/designation_repository.py.
use pro_lens_backend.Base.{
  ℕ, Bool, true, Option, none, some, [], ◌∷◌, ◌++◌, ◌==◌, ◌&&◌, ◌||◌, not, is_none, same_id, ltb,
  any, count, Result, ok, ◌>>=◌, ◌>>◌, raise_if, raise_unless, or_raise, update_where, text_eq,
  lower, strip,
}
use pro_lens_backend.Config.{Text}
use pro_lens_backend.Errors.{Error, Violation}
use pro_lens_backend.Enums.{is_super_admin}
use pro_lens_backend.Model.{Db, User, Designation}
use pro_lens_backend.Repositories.{active_designation}
use pro_lens_backend.Projects.{set_or}

-- `assert_same_organization` of app/api/deps.py
unfoldable pub assert_same_organization : User → Option ℕ → Result (Unit {0})
assert_same_organization caller organization_id =
    raise_unless (is_super_admin caller.role || same_id organization_id caller.organization_id)
      Error.cross_organization_forbidden

abbrev pub not_id : Option ℕ → Designation → Bool
not_id none d = true
not_id (some k) d = not (d.id == k)

-- The WHERE clause of `get_active_by_name`
abbrev pub is_named : ℕ → Text → Designation → Bool
is_named org name d =
    (d.organization_id == org)
    && text_eq (lower d.name) (lower (strip name))
    && is_none d.deleted_at

unfoldable pub name_taken : ℕ → Text → Option ℕ → Db → Bool
name_taken org name exclude_id db =
    any (λ d. is_named org name d && not_id exclude_id d) db.designations

-- The unique index on the organization and the exact name, which counts soft-deleted rows.
unfoldable pub violates_designation_index : ℕ → Text → Option ℕ → Db → Bool
violates_designation_index org name exclude_id db =
    any
      (λ (d : Designation).
        (d.organization_id == org) && text_eq d.name name && not_id exclude_id d)
      db.designations

unfoldable pub create_designation : ℕ → User → Text → Db → Result (Designation × Db)
unfolding name_taken violates_designation_index
create_designation new_id caller name db = do
  org ← or_raise caller.organization_id Error.caller_has_no_organization
  raise_if (name_taken org name none db) (Error.app_exception 409)
  raise_if (violates_designation_index org name none db) (Error.integrity_error Violation.unique)
  let designation : Designation = record {
    id = new_id;
    organization_id = org;
    name = name;
    deleted_at = none;
    deleted_by = none;
  }
  ok (designation, record db { designations = db.designations ++ designation ∷ [] })

abbrev pub rename : Option Text → Designation → Designation
rename name d = record d { name = set_or name d.name }

-- `if payload.name is not None`, with the index that the flush meets.
abbrev pub check_new_name : Option Text → Designation → Db → Result (Unit {0})
check_new_name none d db = ok tt
check_new_name (some name) d db = do
  raise_if (name_taken d.organization_id name (some d.id) db) (Error.app_exception 409)
  raise_if (violates_designation_index d.organization_id name (some d.id) db)
      (Error.integrity_error Violation.unique)

unfoldable pub update_designation : User → ℕ → Option Text → Db → Result (Designation × Db)
unfolding assert_same_organization name_taken violates_designation_index
update_designation caller designation_id name db = do
  designation ← or_raise (active_designation designation_id db) Error.designation_not_found
  assert_same_organization caller (some designation.organization_id)
  check_new_name name designation db
  ok (
    rename name designation,
    record db {
      designations =
          update_where (λ (d : Designation). d.id == designation.id) (rename name) db.designations;
    },
  )

unfoldable pub count_assigned_users : ℕ → Db → ℕ
count_assigned_users designation_id db =
    count (λ (u : User). same_id u.designation_id (some designation_id) && is_none u.deleted_at)
      db.users

abbrev pub soft_delete_designation : ℕ → ℕ → Designation → Designation
soft_delete_designation now by d = record d { deleted_at = some now; deleted_by = some by }

unfoldable pub delete_designation : ℕ → User → ℕ → Db → Result Db
unfolding assert_same_organization count_assigned_users
delete_designation now caller designation_id db = do
  designation ← or_raise (active_designation designation_id db) Error.designation_not_found
  assert_same_organization caller (some designation.organization_id)
  raise_if (ltb 0 (count_assigned_users designation.id db)) (Error.app_exception 409)
  ok (record db {
    designations =
        update_where (λ (d : Designation). d.id == designation.id)
          (soft_delete_designation now caller.id) db.designations;
  })
