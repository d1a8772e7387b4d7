-- ===== src/Organizations/Bootstrap.antt =====
-- A new organization and its first admin.
use pro_lens_backend.Base.{
  ℕ, true, false, none, some, List, [], ◌∷◌, ◌++◌, ◌==◌, find, count, count-append, ◌≡◌, refl,
  arith, ok, lower, strip, has_key, ==_refl,
}
use pro_lens_backend.Config.{Text}
use pro_lens_backend.Enums.{is_super_admin}
use pro_lens_backend.Model.{Db, User, Organization}
use pro_lens_backend.Repositories.{active_organization, is_active_admin_of, user_by_email}
use pro_lens_backend.Members.{add_user}
use pro_lens_backend.Users.{Passwords, resolve_organization_id}
use pro_lens_backend.Users.Operations.{create_user, resolve_designation, violates_name_index}
use pro_lens_backend.Organizations.{
  OrganizationCreate, get_by_domain, create_organization, new_organization,
}

find-new :
    (o : Organization) (os : List Organization)
    → has_key (λ (x : Organization). x.id) o.id os ≡ false
    → find (λ (x : Organization). x.id == o.id) (os ++ o ∷ []) ≡ some o
find-new o [] fresh = rw ==_refl refl
find-new o (x ∷ os) fresh =
    let other : (x.id == o.id) ≡ false = ground arith in rw other (find-new o os (ground arith))

module _ (p : Passwords) (designation_id user_id new_id c d : ℕ) (e w : Text) (caller : User)
    (payload : OrganizationCreate) (db : Db) (super : is_super_admin caller.role ≡ true)
    (free : get_by_domain payload.domain db ≡ none) (email : payload.admin_email ≡ some (c ∷ e))
    (password : payload.admin_password ≡ some (d ∷ w))
    (new_email : user_by_email (lower (strip (c ∷ e))) db ≡ none)
    (fresh : has_key (λ (x : Organization). x.id) new_id db.organizations ≡ false)
    (no_admin : count (is_active_admin_of new_id) db.users ≡ 0) where
  -- A super admin who creates an organization with a domain, an email and an id that are new, and with
  -- both credentials of an admin, gets it: it is active, and it has exactly one active admin.
  pub create_organization_succeeds :
      (r : Organization × Db) × (create_organization p designation_id user_id new_id caller payload
          db
        ≡ ok r)
      × (active_organization new_id r.1 ≡ some r.0)
      × (count (is_active_admin_of new_id) r.1.users ≡ 1)
  unfolding create_organization create_user resolve_organization_id resolve_designation
      violates_name_index add_user active_organization user_by_email is_active_admin_of
  create_organization_succeeds =
      let found = find-new (new_organization new_id payload) db.organizations fresh in
      simp (super, free, email, password, new_email, found)
        (_, refl, rw found refl, rw (count-append, no_admin, ==_refl) refl)
