-- ===== src/Users/Privileges.antt =====
-- Who may change an account, and when its sessions end.
use pro_lens_backend.Base.{
  ℕ, Bool, true, false, Option, none, some, List, ◌≡◌, refl, arith, ◌⊎◌, inl, inr, ◌||◌, ◌==◌, not,
  is_none, same_id, if◌then◌else◌, All, All-intro, All-update_where_of, ok, Ensures, returns,
  raises, Ensures-bind, Ensures-ok, Ensures-or_raise, Ensures-raise_unless, sym, ◌∙◌, update_where,
  find-update_where, count, count-update_where,
}
use mathlib.Core.Path.{subst}
use pro_lens_backend.Config.{Text}
use pro_lens_backend.Enums.{UserStatus, is_super_admin, is_admin, is_active}
use pro_lens_backend.Model.{Db, User, UserSession}
use pro_lens_backend.Repositories.{active_user, user_by_id, by_id}
use pro_lens_backend.Repositories.Lookups.{live-by_id, live-some}
use pro_lens_backend.Projects.{set_or}
use pro_lens_backend.Users.{
  UserUpdate, Passwords, authorize_update, change_password, require_designation_for_employee, sets,
  matches_password,
}
use pro_lens_backend.Users.Rights.{
  WithinRights, authorize_update-MayUpdate, within, role_unchanged, status_unchanged, password_kept,
}
use pro_lens_backend.Users.Operations.{
  apply_user_update, guards_last_admin, update_user, validate_new_designation, revoke,
  revoke_all_for_user,
}

-- Every session of the user is revoked.
abbrev pub AllRevoked : ℕ → List UserSession → Type 0
AllRevoked user_id sessions =
    All (λ (s : UserSession). (s.user_id == user_id) ≡ true → is_none s.revoked_at ≡ false) sessions

pub revoke_all_for_user-AllRevoked :
    (now user_id : ℕ) (sessions : List UserSession)
    → AllRevoked user_id (revoke_all_for_user now user_id sessions)
unfolding revoke_all_for_user
revoke_all_for_user-AllRevoked now user_id sessions =
    All-update_where_of (λ _. Unit {0}) _ _ (revoke now) sessions (λ s _ _ _. refl)
      (λ s miss _ own. ground arith) (All-intro sessions (λ _. tt))

-- The account that a caller changed, against what it was
pub record Changed (caller : User) (user_id : ℕ) (u : UserUpdate) (db : Db) (after : User)
    (db' : Db) : Type 0 where
  pub before : User
  pub found : active_user user_id db ≡ some before
  pub stored : by_id (λ (x : User). x.id) user_id db'.users ≡ some after
  pub others :
      (q : User → Bool)
      → ((x : User) → (x.id == user_id) ≡ true → q x ≡ false)
      → count q db'.users ≡ count q db.users
  pub same_account : (after.email ≡ before.email) × (after.organization_id ≡ before.organization_id)
  pub no_promotion :
      is_super_admin caller.role ≡ false
      → is_super_admin after.role ≡ true
      → is_super_admin before.role ≡ true
  pub own_kept :
      is_super_admin caller.role ≡ false
      → (caller.id == before.id) ≡ true
      → (after.role ≡ before.role) × (after.status ≡ before.status)
  pub of_another :
      is_super_admin caller.role ≡ false
      → (caller.id == before.id) ≡ false
      → (is_admin caller.role ≡ true)
        × (same_id before.organization_id caller.organization_id ≡ true)
        × (is_super_admin before.role ≡ false)
        × (after.password_hash ≡ before.password_hash)
  pub locked_out :
      (is_active after.status ≡ false) ⊎ (sets u.password ≡ true)
      → AllRevoked before.id db'.sessions

abbrev pub ChangedBy : User → ℕ → UserUpdate → Db → User × Db → Type 0
ChangedBy caller user_id u db r = Changed caller user_id u db r.0 r.1

change_password-sets :
    (p : Passwords) (stored : Option Text) (password : Option Text) (current : Option (Option Text))
    → Ensures
        (λ h. sets password ≡ true → is_none h ≡ false)
        (change_password p stored password current)
unfolding change_password
change_password-sets p stored none current = returns (λ s. cc)
change_password-sets p none (some x) current = raises
change_password-sets p (some y) (some x) current =
    Ensures-raise_unless (λ h. true ≡ true → is_none h ≡ false) (matches_password p current y) _ _
      λ _. returns (λ _. refl)

-- The table after the row of one account is rewritten
module _ (u : UserUpdate) (hash : Option Text) (user_id : ℕ) (user : User) (db : Db)
    (found : active_user user_id db ≡ some user) where
  abbrev rewritten : List User
  rewritten = update_where (λ (x : User). x.id == user.id) (apply_user_update u hash) db.users

  rewritten_row :
      by_id (λ (x : User). x.id) user_id rewritten ≡ some (apply_user_update u hash user)
  unfolding active_user user_by_id
  rewritten_row =
      let key =
        (live-by_id (λ (x : User). x.id) (λ (x : User). x.deleted_at) user_id db.users found).0 in
      let row =
        (live-some (λ (x : User). x.id) (λ (x : User). x.deleted_at)
          (by_id (λ (x : User). x.id) user_id db.users) found).0 in
      subst
        (λ k.
          by_id (λ (x : User). x.id) user_id
            (update_where (λ (x : User). x.id == k) (apply_user_update u hash) db.users)
          ≡ some (apply_user_update u hash user))
        (sym key)
        (find-update_where (λ (x : User). x.id == user_id) (apply_user_update u hash) (λ x. refl)
          db.users row)

  other_rows :
      (q : User → Bool)
      → ((x : User) → (x.id == user_id) ≡ true → q x ≡ false)
      → count q rewritten ≡ count q db.users
  unfolding active_user user_by_id
  other_rows q miss =
      let key =
        (live-by_id (λ (x : User). x.id) (λ (x : User). x.deleted_at) user_id db.users found).0 in
      rw key (
        count-update_where q (λ (x : User). x.id == user_id) (apply_user_update u hash)
          (λ x hit. miss (apply_user_update u hash x) hit ∙ sym (miss x hit)) db.users)

rights_of :
    (caller user : User) (u : UserUpdate) {v : Unit {0}}
    → is_super_admin caller.role ≡ false
    → authorize_update caller user u (caller.id == user.id) ≡ ok v
    → WithinRights caller user u (caller.id == user.id)
rights_of caller user u low authorized =
    within caller user u _ low
      (Ensures-ok _ _ (authorize_update-MayUpdate caller user u _) authorized)

-- The sessions after an update.
locked :
    (now id : ℕ) (hash : Option Text) (status : UserStatus) (sessions : List UserSession)
    → (not (is_none hash) || not (is_active status)) ≡ true
    → AllRevoked id (
        if not (is_none hash) || not (is_active status)
        then revoke_all_for_user now id sessions
        else sessions)
locked now id hash status sessions h = rw h (revoke_all_for_user-AllRevoked now id sessions)

-- Whenever an update of an account returns, the account it returns is the one stored under the id, with
-- the email and the organization it had, and the rows of other ids are as before. Unless the caller is a
-- super admin, the account is a super admin afterwards only if it was one, callers keep their own role and
-- status, and another's account is changed only by an admin of the same organization, keeps its password
-- and was no super admin's. If the account is not active afterwards, or a new password was set, all its
-- sessions are revoked.
pub update_user-Changed :
    (p : Passwords) (now : ℕ) (caller : User) (user_id : ℕ) (u : UserUpdate) (db : Db)
    → Ensures (ChangedBy caller user_id u db) (update_user p now caller user_id u db)
unfolding update_user
update_user-Changed p now caller user_id u db =
    let P = ChangedBy caller user_id u db in
    Ensures-or_raise P (active_user user_id db) _ _ λ user found.
      Ensures-bind P (authorize_update caller user u (caller.id == user.id)) _ λ _ authorized.
        Ensures-bind P (guards_last_admin u user db) _ λ _ guard.
          Ensures-bind P (validate_new_designation u.designation_id user.organization_id db) _
            λ _ designated.
              Ensures-bind P
                (require_designation_for_employee (set_or u.role user.role)
                  (set_or u.designation_id user.designation_id))
                _
                λ _ required.
                  Ensures-bind P
                    (change_password p user.password_hash u.password u.current_password) _
                    λ hash changed. returns (record {
                      before = user;
                      found = found;
                      stored = rewritten_row u hash user_id user db found;
                      others = other_rows u hash user_id user db found;
                      same_account = (refl, refl);
                      no_promotion = λ low. (rights_of caller user u low authorized).no_promotion;
                      own_kept = λ low own.
                          let kept = (rights_of caller user u low authorized).own_kept own in
                          (
                            role_unchanged u.role user.role (ground arith),
                            status_unchanged u.status user.status (ground arith),
                          );
                      of_another = λ low other.
                          let (admin, colleague, below, unset) =
                            (rights_of caller user u low authorized).others other in
                          (
                            admin,
                            colleague,
                            below,
                            password_kept p user.password_hash u.password u.current_password unset
                                changed,
                          );
                      locked_out = λ reason.
                          locked now user.id hash (set_or u.status user.status) db.sessions
                            (elim reason [
                              | inl inactive ↦ rw inactive (ground arith)
                              | inr given ↦
                                  let made =
                                    Ensures-ok _ _
                                      (change_password-sets p user.password_hash u.password
                                        u.current_password)
                                      changed given in
                                  rw made refl
                            ]);
                    })
