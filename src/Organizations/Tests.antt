-- ===== src/Organizations/Tests.antt =====
-- Organizations and designations on small inputs, and the witness.
use pro_lens_backend.Base.{
  ℕ, none, some, List, [], ◌∷◌, ◌≡◌, refl, ok, err, true, count, text_eq, lower, strip,
}
use pro_lens_backend.Config.{Text}
use pro_lens_backend.Errors.{Error, Violation}
use pro_lens_backend.Enums.{UserRole}
use pro_lens_backend.Model.{Db, Organization, Designation}
use pro_lens_backend.Model.Samples.{person, database}
use pro_lens_backend.Repositories.{
  active_organization, active_designation, is_active_admin_of, user_by_email,
}
use pro_lens_backend.Users.{Passwords}
use pro_lens_backend.Organizations.{OrganizationCreate, create_organization, get_by_domain}
use pro_lens_backend.Organizations.Designations.{create_designation, delete_designation}
use pro_lens_backend.Organizations.Bootstrap.{create_organization_succeeds}

abbrev passwords : Passwords
passwords = record { random_password = []; hash_password = λ p. p; verify_password = λ a b. true }

abbrev request : OrganizationCreate
request = record {
  name = [];
  domain = 97 ∷ [];
  admin_email = some (98 ∷ []);
  admin_password = some (99 ∷ []);
  admin_first_name = none;
  admin_last_name = none;
}

free : get_by_domain (97 ∷ []) (database [] []) ≡ none
unfolding get_by_domain
free = refl

new_email : user_by_email (lower (strip (98 ∷ []))) (database [] []) ≡ none
unfolding user_by_email text_eq lower strip
new_email = refl

no_admin : count (is_active_admin_of 5) (database [] []).users ≡ 0
unfolding is_active_admin_of
no_admin = refl

create_organization_succeeds_example :
    (r : Organization × Db) × (create_organization passwords 6 7 5
        (person 1 UserRole.super_admin)
        request
        (database [] [])
      ≡ ok r)
    × (active_organization 5 r.1 ≡ some r.0)
    × (count (is_active_admin_of 5) r.1.users ≡ 1)
create_organization_succeeds_example =
    create_organization_succeeds passwords 6 7 5 98 99 [] [] (person 1 UserRole.super_admin) request
      (database [] []) refl free refl refl new_email refl no_admin

abbrev designation : ℕ → Text → Designation
designation id name = record {
  id = id;
  organization_id = 1;
  name = name;
  deleted_at = none;
  deleted_by = none;
}

abbrev titles : List Designation → Db
titles ds = record (database [] []) { designations = ds }

-- Another designation with the name in capitals is a clean conflict; a deleted one meets the index.
same_name :
    create_designation 3 (person 1 UserRole.admin) (65 ∷ []) (titles (designation 2 (97 ∷ []) ∷ []))
    ≡ err (Error.app_exception 409)
unfolding create_designation text_eq lower strip
same_name = refl

deleted_name :
    create_designation 3
      (person 1 UserRole.admin)
      (97 ∷ [])
      (titles (record (designation 2 (97 ∷ [])) { deleted_at = some 4 } ∷ []))
    ≡ err (Error.integrity_error Violation.unique)
unfolding create_designation text_eq lower strip
deleted_name = refl

-- The three users of the sample have designation 1.
still_assigned :
    delete_designation 0 (person 1 UserRole.admin) 1 (titles (designation 1 [] ∷ []))
    ≡ err (Error.app_exception 409)
unfolding delete_designation active_designation
still_assigned = refl
