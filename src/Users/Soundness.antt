-- ===== src/Users/Soundness.antt =====
-- The table of users when accounts are made, changed and deleted.
use pro_lens_backend.Base.{
  ℕ, true, false, Option, none, some, List, [], ◌∷◌, ◌++◌, ◌≡◌, refl, sym, arith, ◌&&◌, ◌==◌,
  ==_iff, not, is_none, same_id, find, any-false, count-append, update_where, UniqueKeys,
  UniqueKeys-append, UniqueKeys-update_where, has_key, text_eq, strip, lower, All, All-append,
  All-update_where_of, All-map_of, All-zip, All-find, Bool-cases, inl, inr, Ensures, returns,
  Ensures-bind, Ensures-ok, Ensures-map, Ensures-or_raise, Ensures-raise_if, Ensures-raise_unless,
}
use mathlib.Core.Path.{subst}
use pro_lens_backend.Config.{Text}
use pro_lens_backend.Enums.{is_super_admin, is_admin, is_active, is_employee}
use pro_lens_backend.Model.{Db, User, Designation}
use pro_lens_backend.Repositories.{
  active_user, active_organization, is_active_admin_of, user_by_email,
}
use pro_lens_backend.Projects.{set_or}
use pro_lens_backend.Members.{add_user, violates_designation_check}
use pro_lens_backend.Users.{
  UserCreate, UserUpdate, Passwords, authorize_update, change_password, assert_not_last_admin,
  validate_role_assignment, resolve_organization_id, last_admin_in,
}
use pro_lens_backend.Users.Operations.{
  designation_by_name, designation_named, resolve_designation, validate_optional_designation,
  violates_name_index, create_user, apply_user_update, soft_delete_user, guards_last_admin,
  update_user, delete_user, validate_new_designation,
}
use pro_lens_backend.Users.LastAdmin.{key, KeepsAdmin, found_row}

-- Ids are unique, and every employee has a designation.
pub record IsSound (db : Db) : Type 0 where
  pub unique : UniqueKeys key db.users
  pub designated : All (λ u. violates_designation_check u ≡ false) db.users

-- Resolving the designation leaves the users alone.
same_users :
    (new_id org : ℕ) (id : Option ℕ) (name : Option Text) (db : Db)
    → (resolve_designation new_id org id name db).1.users ≡ db.users
unfolding resolve_designation
same_users new_id org (some k) name db = refl
same_users new_id org none none db = refl
same_users new_id org none (some name) db = elim (Bool-cases (text_eq (strip name) [])) [
  | inl blank ↦ rw blank refl
  | inr given ↦ rw given (named (designation_by_name org (strip name) db))
]
  where
    named :
        (o : Option Designation)
        → (designation_named o new_id org (strip name) db).1.users ≡ db.users
    named none = refl
    named (some d) = refl

abbrev Grown : ℕ → Db → Db → Type 0
Grown user_id db db' =
    (u : User) × (db'.users ≡ db.users ++ u ∷ [])
    × (u.id ≡ user_id)
    × (violates_designation_check u ≡ false)

add_user-users :
    (u : User) (db db₁ : Db)
    → db₁.users ≡ db.users
    → Ensures (λ d. d.users ≡ db.users ++ u ∷ []) (add_user u db₁)
unfolding add_user
add_user-users u db db₁ same =
    Ensures-raise_if (λ d. d.users ≡ db.users ++ u ∷ []) (violates_designation_check u) _ _
      λ _. returns (rw same refl)

create_user-Grown :
    (p : Passwords) (designation_id user_id : ℕ) (caller : User) (payload : UserCreate) (db : Db)
    → Ensures (λ r. Grown user_id db r.1) (create_user p designation_id user_id caller payload db)
unfolding create_user
create_user-Grown p designation_id user_id caller payload db =
    let P : User × Db → Type 0 = λ r. Grown user_id db r.1 in
    Ensures-raise_unless P (is_none (user_by_email (lower (strip payload.email)) db)) _ _ λ new.
      Ensures-bind P (validate_role_assignment caller payload.role) _ λ _ assignable.
        Ensures-bind P (resolve_organization_id caller payload.organization_id) _ λ org resolved.
          Ensures-or_raise P (active_organization org db) _ _ λ organization found.
            let made =
              resolve_designation designation_id org payload.designation_id payload.designation_name
                db in
            Ensures-raise_if P
              (violates_name_index org payload.designation_id payload.designation_name db) _ _
              λ indexed.
                Ensures-bind P (validate_optional_designation made.0 (some org) made.1) _
                  λ _ designated.
                    Ensures-raise_if P (is_employee payload.role && is_none made.0) _ _ λ required.
                      Ensures-bind P (add_user _ made.1) _ λ grown added. returns (
                        _,
                        Ensures-ok _ _
                            (add_user-users _ db made.1 (
                              same_users designation_id org payload.designation_id
                                payload.designation_name db))
                            added,
                        refl,
                        required,
                      )

-- The row that an id finds is the only one with it.
only_row :
    (k : ℕ) (xs : List User) {a : User}
    → UniqueKeys key xs
    → find (λ x. key x == k) xs ≡ some a
    → All (λ x. (key x == k) ≡ true → x ≡ a) xs
only_row k [] u h = tt
only_row k (x ∷ xs) {a} u h = elim (Bool-cases (key x == k)) [
  | inl hit ↦
      let same : x ≡ a = ground arith in
      let gone : has_key key k xs ≡ false = rw ((==_iff (key x) k).0 hit) at u.0 in
      (
        (λ _. same),
        All-map_of _ _ xs (λ y miss own. let no : ⊥ = ground arith in absurd no)
            (any-false (λ y. key y == k) xs gone),
      )
  | inr miss ↦
      let found : find (λ x. key x == k) xs ≡ some a = ground arith in
      ((λ own. let no : ⊥ = ground arith in absurd no), only_row k xs u.1 found)
]

-- Rewriting the row of a user to one with a designation if it is an employee's.
rewrite_row :
    (f : User → User) (db : Db) (user : User)
    → ((x : User) → key (f x) ≡ key x)
    → find (λ x. key x == user.id) db.users ≡ some user
    → violates_designation_check (f user) ≡ false
    → IsSound db
    → IsSound (record db { users = update_where (λ (x : User). x.id == user.id) f db.users })
rewrite_row f db user same found fine s = record {
  unique = UniqueKeys-update_where key _ f db.users same s.unique;
  designated =
      All-update_where_of
        (λ x. (violates_designation_check x ≡ false) × ((key x == user.id) ≡ true → x ≡ user)) _ _ f
        db.users
        (λ x hit h.
          subst (λ (y : User). violates_designation_check (f y) ≡ false) (sym (h.1 hit)) fine)
        (λ x miss h. h.0)
        (All-zip _ _ db.users s.designated (only_row user.id db.users s.unique found));
}

pub create_user-IsSound :
    (p : Passwords) (designation_id user_id : ℕ) (caller : User) (payload : UserCreate) (db : Db)
    → has_key key user_id db.users ≡ false
    → IsSound db
    → Ensures (λ r. IsSound r.1) (create_user p designation_id user_id caller payload db)
create_user-IsSound p designation_id user_id caller payload db fresh s =
    Ensures-map _ _ grown (create_user-Grown p designation_id user_id caller payload db)
  where
    grown : (r : User × Db) → Grown user_id db r.1 → IsSound r.1
    grown r (u, rows, id, fine) = record {
      unique = rw rows (UniqueKeys-append key u db.users (rw id fresh) s.unique);
      designated = rw rows (All-append _ db.users (u ∷ []) s.designated (fine, tt));
    }

pub create_user-KeepsAdmin :
    (org : ℕ) (p : Passwords) (designation_id user_id : ℕ) (caller : User) (payload : UserCreate)
    (db : Db)
    → KeepsAdmin org db
    → Ensures (λ r. KeepsAdmin org r.1) (create_user p designation_id user_id caller payload db)
create_user-KeepsAdmin org p designation_id user_id caller payload db some_admin =
    Ensures-map _ _ grown (create_user-Grown p designation_id user_id caller payload db)
  where
    grown : (r : User × Db) → Grown user_id db r.1 → KeepsAdmin org r.1
    grown r (u, rows, id, fine) =
        rw (rows, count-append (is_active_admin_of org) db.users (u ∷ []))
          (omega (arith, some_admin))

pub delete_user-IsSound :
    (now : ℕ) (caller : User) (id : ℕ) (db : Db)
    → IsSound db
    → Ensures IsSound (delete_user now caller id db)
unfolding delete_user assert_not_last_admin
delete_user-IsSound now caller id db s =
    Ensures-or_raise IsSound (active_user id db) _ _ λ user found.
      Ensures-raise_if IsSound (user.id == caller.id) _ _ λ other.
        Ensures-raise_if IsSound
          (not (is_super_admin caller.role)
            && not (same_id user.organization_id caller.organization_id))
          _ _
          λ colleague.
            Ensures-raise_if IsSound (not (is_super_admin caller.role) && is_super_admin user.role)
              _ _
              λ privileged.
                Ensures-raise_if IsSound
                  (is_admin user.role
                    && is_active user.status
                    && last_admin_in user.organization_id user.id db)
                  _ _
                  λ guard. returns (
                    let rows =
                      rewrite_row (soft_delete_user now caller.id) db user (λ x. refl)
                        (found_row id db found)
                        (All-find (λ u. violates_designation_check u ≡ false)
                          (λ x. key x == user.id) db.users (found_row id db found) s.designated)
                        s in
                    record { unique = rows.unique; designated = rows.designated })

pub update_user-IsSound :
    (p : Passwords) (now : ℕ) (caller : User) (id : ℕ) (u : UserUpdate) (db : Db)
    → IsSound db
    → Ensures (λ r. IsSound r.1) (update_user p now caller id u db)
unfolding update_user
update_user-IsSound p now caller id u db s =
    Ensures-or_raise (λ r. IsSound r.1) (active_user id db) _ _
      λ user found.
        Ensures-bind (λ r. IsSound r.1) (authorize_update caller user u (caller.id == user.id)) _
          λ _ authorized.
            Ensures-bind (λ r. IsSound r.1) (guards_last_admin u user db) _
              λ _ guard.
                Ensures-bind (λ r. IsSound r.1)
                  (validate_new_designation u.designation_id user.organization_id db) _
                  λ _ designated.
                    Ensures-raise_if (λ r. IsSound r.1)
                      (is_employee (set_or u.role user.role)
                        && is_none (set_or u.designation_id user.designation_id))
                      _ _
                      λ required.
                        Ensures-bind (λ r. IsSound r.1)
                          (change_password p user.password_hash u.password u.current_password) _
                          λ hash changed. returns (
                            let rows =
                              rewrite_row (apply_user_update u hash) db user (λ x. refl)
                                (found_row id db found) required s in
                            record { unique = rows.unique; designated = rows.designated })
