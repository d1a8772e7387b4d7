-- ===== src/Members/Tests.antt =====
-- Project members at the sample database: users 1 (admin), 2 (employee) and 3 (manager).
use pro_lens_backend.Base.{
  none, some, [], ◌∷◌, ◌≡◌, refl, arith, ok, err, Ensures, text_eq, lower, strip,
}
use pro_lens_backend.Config.{default_settings}
use pro_lens_backend.Errors.{Error, Violation, status_code}
use pro_lens_backend.Enums.{UserRole}
use pro_lens_backend.Model.{Db, User, ProjectMember}
use pro_lens_backend.Model.Samples.{person, membership, database}
use pro_lens_backend.Repositories.{
  active_project, project_by_id, active_user, user_by_id, user_by_email, is_member,
}
use pro_lens_backend.Outbox.{enqueue_email}
use pro_lens_backend.Members.{
  ProjectMemberCreate, Outside, create_project_member, resolve_target, can_add_member, notify,
}
use pro_lens_backend.Members.Adding.{
  Added, AddedBy, create_project_member-Added, create_project_member_succeeds,
}
use pro_lens_backend.Members.Addresses.{unknown_address_fails, deleted_user_added}
use pro_lens_backend.Members.Unique.{AtMostOnce, here, next, member_added, Reach-AtMostOnce}

abbrev outside : Outside
outside = record { random_password_hash = []; project_member_added = λ _ _ _. ([], [], none) }

abbrev admin : User
admin = person 1 UserRole.admin

abbrev empty : Db
empty = database [] []

abbrev payload : ProjectMemberCreate
payload = record { project_id = 10; user_id = some 2; email = none }

abbrev added : ProjectMember
added = record (membership 2) { id = 41; added_at = 7 }

abbrev after : Db
after = record empty {
  project_members = added ∷ [];
  outbox = enqueue_email default_settings 50 7 1 [] [] [] none [];
}

empty-AtMostOnce : AtMostOnce empty
empty-AtMostOnce p u = omega arith

adding_returns :
    create_project_member default_settings outside 60 41 50 7 admin payload empty
    ≡ ok (added, after)
unfolding create_project_member active_project project_by_id resolve_target active_user user_by_id
    can_add_member is_member notify
adding_returns = refl

create_project_member-Added_example :
    Ensures
      (AddedBy payload admin empty)
      (create_project_member default_settings outside 60 41 50 7 admin payload empty)
create_project_member-Added_example =
    create_project_member-Added default_settings outside 60 41 50 7 admin payload empty

create_project_member_succeeds_example :
    (r : ProjectMember × Db) × (create_project_member default_settings outside 60 41 50 7 admin
        payload empty
      ≡ ok r)
    × (r.0.user_id ≡ 2)
    × Added 10 admin empty r.0 r.1
unfolding active_project project_by_id active_user user_by_id can_add_member is_member
create_project_member_succeeds_example =
    create_project_member_succeeds default_settings outside 60 41 50 7 1 2 10 admin
      (person 2 UserRole.employee) empty refl refl refl refl refl refl refl refl

unknown_address_fails_example :
    (create_project_member default_settings outside 60 41 50 7 admin
        (record { project_id = 10; user_id = none; email = some (b'n' ∷ []) })
        empty
      ≡ err (Error.integrity_error Violation.check))
    × (status_code (Error.integrity_error Violation.check) ≡ 422)
unfolding active_project project_by_id user_by_email text_eq lower strip
unknown_address_fails_example =
    unknown_address_fails default_settings outside 60 41 50 7 1 admin (b'n' ∷ []) empty 10 refl refl
      refl refl

abbrev gone : User
gone = record (person 2 UserRole.employee) { email = b'g' ∷ []; deleted_at = some 3 }

abbrev with_gone : Db
with_gone = record empty { users = gone ∷ [] }

deleted_user_added_example :
    (r : ProjectMember × Db) × (create_project_member default_settings outside 60 41 50 7 admin
        (record { project_id = 10; user_id = none; email = some (b'g' ∷ []) })
        with_gone
      ≡ ok r)
    × (r.0.user_id ≡ 2)
unfolding active_project project_by_id user_by_email can_add_member is_member text_eq lower strip
deleted_user_added_example =
    deleted_user_added default_settings outside 60 41 50 7 1 3 admin gone (b'g' ∷ []) with_gone 10
      refl refl refl refl refl refl refl refl refl

Reach-AtMostOnce_example : AtMostOnce after
Reach-AtMostOnce_example = Reach-AtMostOnce empty-AtMostOnce (
    next here (member_added default_settings outside 60 41 50 7 admin payload added adding_returns))
