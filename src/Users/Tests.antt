-- ===== src/Users/Tests.antt =====
-- Accounts at the sample database, where user 1 is the only admin of organization 1.
use pro_lens_backend.Base.{true, none, some, [], ◌∷◌, ◌≡◌, refl, arith, ok, err, Ensures}
use pro_lens_backend.Errors.{Error}
use pro_lens_backend.Enums.{UserRole, UserStatus}
use pro_lens_backend.Model.{Db, User}
use pro_lens_backend.Model.Samples.{person, database}
use pro_lens_backend.Repositories.{active_user, user_by_id, count_active_admins, is_active_admin_of}
use pro_lens_backend.Users.{UserUpdate, Passwords, assert_not_last_admin}
use pro_lens_backend.Users.{authorize_update, authorize_admin, change_password}
use pro_lens_backend.Users.Operations.{
  soft_delete_user, delete_user, update_user, revoke_all_for_user,
}
use pro_lens_backend.Users.LastAdmin.{KeepsAdmin}
use pro_lens_backend.Users.Reach.{here, next, deleted, Reach-KeepsAdmin}
use pro_lens_backend.Users.Soundness.{IsSound}
use pro_lens_backend.Users.Deletion.{Deleted, delete_user-Deleted}
use pro_lens_backend.Users.Privileges.{ChangedBy, update_user-Changed}

abbrev admin : User
admin = person 1 UserRole.admin

abbrev start : Db
start = database [] []

abbrev after : Db
after = record start {
  users =
      admin ∷ soft_delete_user 5 1 (person 2 UserRole.employee) ∷ person 3 UserRole.manager ∷ [];
}

start-IsSound : IsSound start
start-IsSound = record {
  unique = (refl, (refl, (refl, tt)));
  designated = (refl, (refl, (refl, tt)));
}

employee_deleted : delete_user 5 admin 2 start ≡ ok after
unfolding delete_user active_user user_by_id assert_not_last_admin revoke_all_for_user
employee_deleted = refl

-- Another super admin cannot delete the only admin.
last_admin_stays :
    delete_user 5 (person 9 UserRole.super_admin) 1 start ≡ err Error.cannot_delete_last_admin
unfolding delete_user active_user user_by_id assert_not_last_admin count_active_admins
    is_active_admin_of
last_admin_stays = refl

start-KeepsAdmin : KeepsAdmin 1 start
unfolding is_active_admin_of
start-KeepsAdmin = omega arith

Reach-KeepsAdmin_example : IsSound after × KeepsAdmin 1 after
Reach-KeepsAdmin_example =
    Reach-KeepsAdmin 1 start-IsSound start-KeepsAdmin
      (next here (deleted 5 admin 2 employee_deleted))

abbrev suspend : UserUpdate
suspend = record {
  first_name = none;
  last_name = none;
  role = none;
  status = some UserStatus.suspended;
  designation_id = none;
  password = none;
  current_password = none;
}

abbrev passwords : Passwords
passwords = record { random_password = []; hash_password = λ t. t; verify_password = λ _ _. true }

abbrev suspended : User
suspended = record (person 2 UserRole.employee) { status = UserStatus.suspended }

employee_suspended :
    update_user passwords 5 admin 2 suspend start
    ≡ ok (suspended, record start { users = admin ∷ suspended ∷ person 3 UserRole.manager ∷ [] })
unfolding update_user active_user user_by_id authorize_update authorize_admin change_password
    revoke_all_for_user assert_not_last_admin
employee_suspended = refl

update_user-Changed_example :
    Ensures (ChangedBy admin 2 suspend start) (update_user passwords 5 admin 2 suspend start)
update_user-Changed_example = update_user-Changed passwords 5 admin 2 suspend start

delete_user-Deleted_example : Ensures (Deleted admin 2 start) (delete_user 5 admin 2 start)
delete_user-Deleted_example = delete_user-Deleted 5 admin 2 start
