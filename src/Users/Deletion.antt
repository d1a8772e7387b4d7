-- ===== src/Users/Deletion.antt =====
-- Who may delete an account, and what becomes of its sessions.
use pro_lens_backend.Base.{
  ℕ, true, false, some, ◌≡◌, arith, ◌&&◌, ◌||◌, ◌==◌, not, same_id, Ensures, returns,
  Ensures-or_raise, Ensures-raise_if,
}
use pro_lens_backend.Enums.{is_super_admin, is_admin, is_active}
use pro_lens_backend.Model.{Db, User}
use pro_lens_backend.Repositories.{active_user}
use pro_lens_backend.Users.{assert_not_last_admin, last_admin_in}
use pro_lens_backend.Users.Operations.{delete_user}
use pro_lens_backend.Users.Privileges.{AllRevoked, revoke_all_for_user-AllRevoked}

pub record Deleted (caller : User) (user_id : ℕ) (db db' : Db) : Type 0 where
  pub user : User
  pub found : active_user user_id db ≡ some user
  pub other : (user.id == caller.id) ≡ false
  pub rights :
      (is_super_admin caller.role
        || (same_id user.organization_id caller.organization_id && not (is_super_admin user.role)))
      ≡ true
  pub revoked : AllRevoked user.id db'.sessions

-- Whenever a deletion of an account returns, the caller is not its owner and, unless a super admin,
-- belongs to the same organization and deletes no super admin; and all sessions of the account are
-- revoked.
pub delete_user-Deleted :
    (now : ℕ) (caller : User) (user_id : ℕ) (db : Db)
    → Ensures (Deleted caller user_id db) (delete_user now caller user_id db)
unfolding delete_user assert_not_last_admin
delete_user-Deleted now caller user_id db =
    let P = Deleted caller user_id db in
    Ensures-or_raise P (active_user user_id db) _ _ λ user found.
      Ensures-raise_if P (user.id == caller.id) _ _ λ other.
        Ensures-raise_if P
          (not (is_super_admin caller.role)
            && not (same_id user.organization_id caller.organization_id))
          _ _
          λ colleague.
            Ensures-raise_if P (not (is_super_admin caller.role) && is_super_admin user.role) _ _
              λ privileged.
                Ensures-raise_if P
                  (is_admin user.role
                    && is_active user.status
                    && last_admin_in user.organization_id user.id db)
                  _ _
                  λ guard. returns (record {
                    user = user;
                    found = found;
                    other = other;
                    rights = ground arith;
                    revoked = revoke_all_for_user-AllRevoked now user.id db.sessions;
                  })
