-- ===== src/Users/LastAdmin.antt =====
-- The active admins of an organization, under changes and deletions of accounts.
use pro_lens_backend.Base.{
  ℕ, ◌+◌, ◌≤◌, true, false, Option, none, some, ◌≡◌, refl, arith, ◌&&◌, ◌||◌, ◌==◌, not, same_id,
  same_id-eq, find, count, update_where, UniqueKeys, Bool-cases, inl, inr, ok, raise_if-eq-ok,
  Ensures, returns, Ensures-bind, Ensures-or_raise, Ensures-raise_if,
}
use pro_lens_backend.Config.{Text}
use pro_lens_backend.Errors.{Error}
use pro_lens_backend.Enums.{UserRole, UserStatus, is_super_admin, is_admin, is_active}
use pro_lens_backend.Model.{Db, User}
use pro_lens_backend.Repositories.{
  by_id, user_by_id, active_user, is_active_admin_of, count_active_admins,
}
use pro_lens_backend.Repositories.Lookups.{live-some, live-by_id}
use pro_lens_backend.Projects.{set_or}
use pro_lens_backend.Users.{
  UserUpdate, Passwords, assert_not_last_admin, last_admin_in, changes_role, changes_status,
  authorize_update, change_password, require_designation_for_employee,
}
use pro_lens_backend.Users.Operations.{
  apply_user_update, guards_last_admin, update_user, delete_user, validate_new_designation,
}
use pro_lens_backend.Users.Rows.{rest, count-one_row}

abbrev pub key : User → ℕ
key u = u.id

abbrev pub admins : ℕ → Db → ℕ
admins org db = count (is_active_admin_of org) db.users

-- Rewriting the row of a user keeps an active admin, unless it is the last one and stops being one.
keep_admin :
    (org : ℕ) (f : User → User) (db : Db) (user : User)
    → UniqueKeys key db.users
    → find (λ x. key x == user.id) db.users ≡ some user
    → (is_active_admin_of org user ≡ true
        → is_active_admin_of org (f user) ≡ false
        → (count_active_admins org user.id db == 0) ≡ false)
    → 1 ≤ admins org db
    → 1 ≤ count (is_active_admin_of org) (update_where (λ (x : User). x.id == user.id) f db.users)
unfolding count_active_admins
keep_admin org f db user unique found guard some_admin =
    let counts = count-one_row key (is_active_admin_of org) user.id f db.users unique found in
    elim (Bool-cases (is_active_admin_of org (f user))) [
      | inl stays ↦ rw (counts.1, stays) (omega arith)
      | inr stops ↦ elim (Bool-cases (is_active_admin_of org user)) [
        | inl was ↦ let other = guard was stops in rw (counts.1, stops) (ground arith)
        | inr never ↦
            let before : 1 ≤ rest key (is_active_admin_of org) user.id db.users + 0 =
              rw (counts.0, never) at some_admin in
            rw (counts.1, stops) before
      ]
    ]

-- What the guard against the last admin says for an organization.
asserted :
    (org : ℕ) (user : User) (db : Db)
    → (is_admin user.role && is_active user.status && last_admin_in user.organization_id user.id db)
      ≡ false
    → is_active_admin_of org user ≡ true
    → (count_active_admins org user.id db == 0) ≡ false
unfolding is_active_admin_of
asserted org user db guard admin =
    let home : user.organization_id ≡ some org =
      same_id-eq user.organization_id (some org) (ground arith) in
    let open_guard : (is_admin user.role
          && is_active user.status
          && (count_active_admins org user.id db == 0))
        ≡ false =
      rw home at guard in
    ground arith

pub found_row :
    (id : ℕ) (db : Db) {user : User}
    → active_user id db ≡ some user
    → find (λ x. key x == user.id) db.users ≡ some user
unfolding active_user user_by_id
found_row id db {user} h =
    let row = live-some key (λ (u : User). u.deleted_at) (by_id key id db.users) h in
    let same = live-by_id key (λ (u : User). u.deleted_at) id db.users h in simp same.0 row.0

abbrev pub KeepsAdmin : ℕ → Db → Type 0
KeepsAdmin org db = 1 ≤ admins org db

pub delete_user-KeepsAdmin :
    (org now : ℕ) (caller : User) (id : ℕ) (db : Db)
    → UniqueKeys key db.users
    → KeepsAdmin org db
    → Ensures (KeepsAdmin org) (delete_user now caller id db)
unfolding delete_user assert_not_last_admin
delete_user-KeepsAdmin org now caller id db unique some_admin =
    Ensures-or_raise (KeepsAdmin org) (active_user id db) _ _ λ user found.
      Ensures-raise_if (KeepsAdmin org) (user.id == caller.id) _ _ λ other.
        Ensures-raise_if (KeepsAdmin org)
          (not (is_super_admin caller.role)
            && not (same_id user.organization_id caller.organization_id))
          _ _
          λ colleague.
            Ensures-raise_if (KeepsAdmin org)
              (not (is_super_admin caller.role) && is_super_admin user.role) _ _
              λ privileged.
                Ensures-raise_if (KeepsAdmin org)
                  (is_admin user.role
                    && is_active user.status
                    && last_admin_in user.organization_id user.id db)
                  _ _
                  λ guard. returns (
                    keep_admin org _ db user unique (found_row id db found)
                      (λ admin _. asserted org user db guard admin) some_admin)

changed_role :
    (o : Option UserRole) (r : UserRole)
    → is_admin r ≡ true
    → is_admin (set_or o r) ≡ false
    → changes_role o r ≡ true
changed_role none r a b = cc
changed_role (some UserRole.admin) UserRole.admin a b = cc
changed_role (some UserRole.super_admin) UserRole.admin a b = refl
changed_role (some UserRole.manager) UserRole.admin a b = refl
changed_role (some UserRole.employee) UserRole.admin a b = refl
changed_role (some r') UserRole.super_admin a b = cc
changed_role (some r') UserRole.manager a b = cc
changed_role (some r') UserRole.employee a b = cc

changed_status :
    (o : Option UserStatus) (s : UserStatus)
    → is_active s ≡ true
    → is_active (set_or o s) ≡ false
    → changes_status o s ≡ true
changed_status none s a b = cc
changed_status (some UserStatus.active) UserStatus.active a b = cc
changed_status (some UserStatus.invited) UserStatus.active a b = refl
changed_status (some UserStatus.suspended) UserStatus.active a b = refl
changed_status (some s') UserStatus.invited a b = cc
changed_status (some s') UserStatus.suspended a b = cc

-- An update after which an active admin is none takes the branch of the guard.
guarded :
    (org : ℕ) (u : UserUpdate) (hash : Option Text) (user : User) (db : Db) {v : Unit {0}}
    → guards_last_admin u user db ≡ ok v
    → is_active_admin_of org user ≡ true
    → is_active_admin_of org (apply_user_update u hash user) ≡ false
    → (count_active_admins org user.id db == 0) ≡ false
unfolding is_active_admin_of assert_not_last_admin
guarded org u hash user db h was stops =
    let role = changed_role u.role user.role in
    let status = changed_status u.status user.status in
    let branch : ((changes_role u.role user.role || changes_status u.status user.status)
          && not (is_admin (set_or u.role user.role) && is_active (set_or u.status user.status)))
        ≡ true =
      ground arith in
    asserted org user db (raise_if-eq-ok _ Error.cannot_delete_last_admin (rw branch at h)) was

pub update_user-KeepsAdmin :
    (org : ℕ) (p : Passwords) (now : ℕ) (caller : User) (id : ℕ) (u : UserUpdate) (db : Db)
    → UniqueKeys key db.users
    → KeepsAdmin org db
    → Ensures (λ r. KeepsAdmin org r.1) (update_user p now caller id u db)
unfolding update_user
update_user-KeepsAdmin org p now caller id u db unique some_admin =
    Ensures-or_raise (λ r. KeepsAdmin org r.1) (active_user id db) _ _
      λ user found.
        Ensures-bind (λ r. KeepsAdmin org r.1)
          (authorize_update caller user u (caller.id == user.id)) _
          λ _ authorized.
            Ensures-bind (λ r. KeepsAdmin org r.1) (guards_last_admin u user db) _
              λ _ guard.
                Ensures-bind (λ r. KeepsAdmin org r.1)
                  (validate_new_designation u.designation_id user.organization_id db) _
                  λ _ designated.
                    Ensures-bind (λ r. KeepsAdmin org r.1)
                      (require_designation_for_employee (set_or u.role user.role)
                        (set_or u.designation_id user.designation_id))
                      _
                      λ _ required.
                        Ensures-bind (λ r. KeepsAdmin org r.1)
                          (change_password p user.password_hash u.password u.current_password) _
                          λ hash changed. returns (
                            keep_admin org _ db user unique (found_row id db found)
                              (guarded org u hash user db guard) some_admin)
