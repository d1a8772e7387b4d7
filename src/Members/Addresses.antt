-- ===== src/Members/Addresses.antt =====
-- Adding a project member by an address that no user has, and who may add whom.
use pro_lens_backend.Base.{
  ℕ, true, false, none, some, ◌≡◌, refl, arith, ◌==◌, same_id, ok, err, strip, lower,
}
use pro_lens_backend.Config.{Text, Settings}
use pro_lens_backend.Errors.{Error, Violation, status_code, violation_status}
use pro_lens_backend.Enums.{is_admin_role, is_active}
use pro_lens_backend.Model.{Db, User, Project, ProjectMember}
use pro_lens_backend.Repositories.{active_project, user_by_email, is_member}
use pro_lens_backend.Members.{
  Outside, add_user, existing_or_invited, resolve_target, can_add_member, can_remove_member,
  create_project_member,
}

-- In an active project of the caller's organization, adding a member by an address that no user has
-- always ends in the violation of a check constraint, with the reply 422: the user that is made for
-- the address is an employee without a designation.
pub unknown_address_fails :
    (s : Settings) (o : Outside) (user_id member_id email_id now org : ℕ) (caller : User)
    (email : Text) (db : Db) {project : Project} (project_id : ℕ)
    → caller.organization_id ≡ some org
    → active_project project_id db ≡ some project
    → (project.organization_id == org) ≡ true
    → user_by_email (lower (strip email)) db ≡ none
    → (create_project_member s o user_id member_id email_id now caller
          (record { project_id = project_id; user_id = none; email = some email })
          db
        ≡ err (Error.integrity_error Violation.check))
      × (status_code (Error.integrity_error Violation.check) ≡ 422)
unfolding create_project_member resolve_target existing_or_invited add_user status_code
    violation_status
unknown_address_fails s o user_id member_id email_id now org caller email db project_id c p same
      unknown =
    (rw (c, p, same, unknown) refl, refl)

-- Adding by an address does not look at `deleted_at`: a caller who may add the user of the address, a
-- user of the organization with active status who is not a member yet, succeeds even if that user is
-- soft-deleted, and the new membership is that user's.
pub deleted_user_added :
    (s : Settings) (o : Outside) (user_id member_id email_id now org deleted_at : ℕ)
    (caller u : User) (email : Text) (db : Db) {project : Project} (project_id : ℕ)
    → caller.organization_id ≡ some org
    → active_project project_id db ≡ some project
    → (project.organization_id == org) ≡ true
    → user_by_email (lower (strip email)) db ≡ some u
    → u.deleted_at ≡ some deleted_at
    → same_id u.organization_id (some org) ≡ true
    → is_active u.status ≡ true
    → can_add_member caller u project_id db ≡ true
    → is_member project_id u.id db ≡ false
    → (r : ProjectMember × Db) × (create_project_member s o user_id member_id email_id now caller
          (record { project_id = project_id; user_id = none; email = some email })
          db
        ≡ ok r)
      × (r.0.user_id ≡ u.id)
unfolding create_project_member resolve_target existing_or_invited
deleted_user_added s o user_id member_id email_id now org deleted_at caller u email db project_id c
      p same known gone colleague usable allowed new =
    simp (colleague, c, p, same, known, usable, allowed, new) (_, refl, refl)

-- Adding and removing agree: a caller may add a user to a project exactly if the caller may remove
-- that user from it; nobody may do either to an admin or a super admin.
can_add_member-can_remove_member :
    (caller target : User) (project_id : ℕ) (db : Db)
    → (can_add_member caller target project_id db
        ≡ can_remove_member caller (some target) project_id db)
      × (is_admin_role target.role ≡ true → can_add_member caller target project_id db ≡ false)
unfolding can_add_member can_remove_member
can_add_member-can_remove_member caller target project_id db = (ground arith, ground arith)
