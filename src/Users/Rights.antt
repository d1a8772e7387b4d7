-- ===== src/Users/Rights.antt =====
-- Whom the guards on an update let pass: `_authorize_update` of app/services/user_service.py.
use pro_lens_backend.Base.{
  Bool, true, false, Option, none, some, ◌≡◌, refl, arith, ◌⊎◌, inl, inr, ◌&&◌, ◌||◌, not, same_id,
  if◌then◌else◌, Bool-cases, ok, raise_if, raise_if-eq-ok, Ensures, returns, raises, Ensures-bind,
  Ensures-map, Ensures-raise_if, Ensures-raise_unless, ap, sym,
}
use pro_lens_backend.Config.{Text}
use pro_lens_backend.Errors.{Error}
use pro_lens_backend.Enums.{UserRole, UserStatus, is_super_admin, is_admin}
use pro_lens_backend.Model.{User}
use pro_lens_backend.Projects.{set_or}
use pro_lens_backend.Users.{
  UserUpdate, Passwords, authorize_admin, authorize_update, change_password, changes_role,
  changes_status, validate_new_role, sets, sets_disallowed,
}
use pro_lens_backend.Users.Operations.{new_hash}

-- What the update may be, unless the caller is a super admin.
pub record WithinRights (caller user : User) (u : UserUpdate) (is_self : Bool) : Type 0 where
  pub own_kept :
      is_self ≡ true
      → (changes_role u.role user.role || changes_status u.status user.status) ≡ false
  pub others :
      is_self ≡ false
      → (is_admin caller.role ≡ true)
        × (same_id user.organization_id caller.organization_id ≡ true)
        × (is_super_admin user.role ≡ false)
        × (sets u.password ≡ false)
  pub no_promotion :
      is_super_admin (set_or u.role user.role) ≡ true → is_super_admin user.role ≡ true

abbrev pub MayUpdate : User → User → UserUpdate → Bool → Type 0
MayUpdate caller user u is_self =
    (is_super_admin caller.role ≡ true) ⊎ WithinRights caller user u is_self

raise_if-Ensures :
    (P : Type 0) (b : Bool) (e : Error) → (b ≡ false → P) → Ensures (λ _. P) (raise_if b e)
raise_if-Ensures P true e h = raises
raise_if-Ensures P false e h = returns (h refl)

role_kept :
    (o : Option UserRole) (r : UserRole)
    → sets o ≡ false
    → (set_or o r ≡ r) × (changes_role o r ≡ false)
role_kept none r h = (refl, refl)
role_kept (some x) r h = cc

status_kept : (o : Option UserStatus) (s : UserStatus) → sets o ≡ false → changes_status o s ≡ false
status_kept none s h = refl
status_kept (some x) s h = cc

-- A role that a caller who is no super admin may give.
given_role :
    (caller : User) (o : Option UserRole) (r : UserRole) {v : Unit {0}}
    → is_super_admin caller.role ≡ false
    → validate_new_role caller o ≡ ok v
    → is_super_admin (set_or o r) ≡ true
    → is_super_admin r ≡ true
given_role caller none r low h s = s
given_role caller (some x) r low h s =
    let refused = raise_if-eq-ok (not (is_super_admin caller.role) && is_super_admin x) _ h in
    let no : ⊥ = ground arith in absurd no

authorize_admin-WithinRights :
    (caller user : User) (u : UserUpdate) (is_self : Bool)
    → is_super_admin caller.role ≡ false
    → is_admin caller.role ≡ true
    → Ensures (λ _. WithinRights caller user u is_self) (authorize_admin caller user u is_self)
unfolding authorize_admin
authorize_admin-WithinRights caller user u self low admin =
    Ensures-raise_if (λ _. WithinRights caller user u self) (is_super_admin user.role) _ _
      λ below.
        Ensures-raise_unless (λ _. WithinRights caller user u self)
          (same_id user.organization_id caller.organization_id) _ _
          λ colleague.
            Ensures-bind (λ _. WithinRights caller user u self) (validate_new_role caller u.role) _
              λ _ given.
                raise_if-Ensures (WithinRights caller user u self)
                  (if self
                    then changes_role u.role user.role || changes_status u.status user.status
                    else sets u.password)
                  Error.field_not_editable
                  λ editable. record {
                    own_kept = λ own. rw own at editable;
                    others = λ other. (admin, colleague, below, rw other at editable);
                    no_promotion = given_role caller u.role user.role low given;
                  }

pub authorize_update-MayUpdate :
    (caller user : User) (u : UserUpdate) (is_self : Bool)
    → Ensures (λ _. MayUpdate caller user u is_self) (authorize_update caller user u is_self)
unfolding authorize_update
authorize_update-MayUpdate caller user u self = elim (Bool-cases (is_super_admin caller.role)) [
  | inl top ↦ rw top (returns (inl refl))
  | inr low ↦ elim (Bool-cases (is_admin caller.role)) [
    | inl admin ↦
        rw (low, admin)
          (Ensures-map _ _ (λ _ w. inr w)
            (authorize_admin-WithinRights caller user u self low admin))
    | inr plain ↦
        rw (low, plain)
          (Ensures-map _ _ (λ _ w. inr w)
            (Ensures-raise_unless (λ _. WithinRights caller user u self) self
              Error.insufficient_permission _
              λ own.
                raise_if-Ensures (WithinRights caller user u self) (sets_disallowed u)
                  Error.field_not_editable λ fields. own_fields own fields))
  ]
]
  where
    own_fields : self ≡ true → sets_disallowed u ≡ false → WithinRights caller user u self
    own_fields own fields =
        let role = role_kept u.role user.role (ground arith) in
        let status = status_kept u.status user.status (ground arith) in
        record {
          own_kept = λ _. rw (role.1, status) refl;
          others = λ other. cc;
          no_promotion = λ top. rw role.0 at top;
        }

pub within :
    (caller user : User) (u : UserUpdate) (is_self : Bool)
    → is_super_admin caller.role ≡ false
    → MayUpdate caller user u is_self
    → WithinRights caller user u is_self
within caller user u self low (inl top) = let no : ⊥ = cc in absurd no
within caller user u self low (inr rights) = rights

pub role_unchanged :
    (o : Option UserRole) (r : UserRole) → changes_role o r ≡ false → set_or o r ≡ r
role_unchanged none r h = refl
role_unchanged (some UserRole.super_admin) UserRole.super_admin h = refl
role_unchanged (some UserRole.super_admin) UserRole.admin h = cc
role_unchanged (some UserRole.super_admin) UserRole.manager h = cc
role_unchanged (some UserRole.super_admin) UserRole.employee h = cc
role_unchanged (some UserRole.admin) UserRole.super_admin h = cc
role_unchanged (some UserRole.admin) UserRole.admin h = refl
role_unchanged (some UserRole.admin) UserRole.manager h = cc
role_unchanged (some UserRole.admin) UserRole.employee h = cc
role_unchanged (some UserRole.manager) UserRole.super_admin h = cc
role_unchanged (some UserRole.manager) UserRole.admin h = cc
role_unchanged (some UserRole.manager) UserRole.manager h = refl
role_unchanged (some UserRole.manager) UserRole.employee h = cc
role_unchanged (some UserRole.employee) UserRole.super_admin h = cc
role_unchanged (some UserRole.employee) UserRole.admin h = cc
role_unchanged (some UserRole.employee) UserRole.manager h = cc
role_unchanged (some UserRole.employee) UserRole.employee h = refl

pub status_unchanged :
    (o : Option UserStatus) (s : UserStatus) → changes_status o s ≡ false → set_or o s ≡ s
status_unchanged none s h = refl
status_unchanged (some UserStatus.invited) UserStatus.invited h = refl
status_unchanged (some UserStatus.invited) UserStatus.active h = cc
status_unchanged (some UserStatus.invited) UserStatus.suspended h = cc
status_unchanged (some UserStatus.active) UserStatus.invited h = cc
status_unchanged (some UserStatus.active) UserStatus.active h = refl
status_unchanged (some UserStatus.active) UserStatus.suspended h = cc
status_unchanged (some UserStatus.suspended) UserStatus.invited h = cc
status_unchanged (some UserStatus.suspended) UserStatus.active h = cc
status_unchanged (some UserStatus.suspended) UserStatus.suspended h = refl

pub password_kept :
    (p : Passwords) (stored password : Option Text) (current : Option (Option Text))
    {hash : Option Text}
    → sets password ≡ false
    → change_password p stored password current ≡ ok hash
    → new_hash hash stored ≡ stored
unfolding change_password
password_kept p stored none current {hash} unset h =
    let same : none ≡ hash = cc in ap (λ x. new_hash x stored) (sym same)
password_kept p stored (some x) current unset h = cc
