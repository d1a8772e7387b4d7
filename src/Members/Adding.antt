-- ===== src/Members/Adding.antt =====
-- What adding a project member needs, and what it does when it returns.
use pro_lens_backend.Base.{
  ℕ, ◌+◌, Bool, true, false, Option, none, some, [], ◌∷◌, ◌++◌, ◌≡◌, refl, ◌∙◌, ap, sym, arith,
  ◌==◌, is_none, same_id, any, length, length-append, ok, Ensures, returns, raises, Ensures-bind,
  Ensures-ok, Ensures-or_raise, Ensures-raise_if, Ensures-raise_unless, strip, lower, Bool-cases,
  inl, inr,
}
use pro_lens_backend.Config.{Text, Settings}
use pro_lens_backend.Enums.{is_active}
use pro_lens_backend.Model.{Db, User, Project, ProjectMember}
use pro_lens_backend.Outbox.{enqueue_email}
use pro_lens_backend.Repositories.{
  active_project, active_user, user_by_email, is_member, is_membership,
}
use pro_lens_backend.Members.{
  ProjectMemberCreate, Outside, add_user, existing_or_invited, resolve_target, can_add_member,
  notify, create_project_member,
}

-- The tables that resolving the target leaves alone.
abbrev SameTables : Db → Db → Type 0
SameTables db db' = (db'.project_members ≡ db.project_members) × (db'.outbox ≡ db.outbox)

existing_or_invited-Ensures :
    (found : Option User) (id org : ℕ) (email hash : Text) (db : Db)
    → Ensures (λ r. SameTables db r.1) (existing_or_invited found id org email hash db)
unfolding existing_or_invited add_user
existing_or_invited-Ensures (some u) id org email hash db = returns (refl, refl)
existing_or_invited-Ensures none id org email hash db = raises

resolve_target-Ensures :
    (o : Outside) (id org : ℕ) (user_id : Option ℕ) (email : Option Text) (db : Db)
    → Ensures (λ r. SameTables db r.1) (resolve_target o id org user_id email db)
unfolding resolve_target
resolve_target-Ensures o id org (some u) email db =
    Ensures-or_raise _ (active_user u db) _ _ λ user found. returns (refl, refl)
resolve_target-Ensures o id org none none db = raises
resolve_target-Ensures o id org none (some e) db =
    existing_or_invited-Ensures (user_by_email (lower (strip e)) db) id org (lower (strip e))
      o.random_password_hash db

-- Whoever adds themselves gets no email.
abbrev emails : Bool → ℕ
emails true = 0
emails false = 1

pub record Added (project_id : ℕ) (caller : User) (db : Db) (m : ProjectMember) (db' : Db)
    : Type 0 where
  pub project : m.project_id ≡ project_id
  pub members : db'.project_members ≡ db.project_members ++ m ∷ []
  pub was_outside : is_member project_id m.user_id db ≡ false
  pub active : is_none m.removed_at ≡ true
  pub by_caller : m.added_by ≡ caller.id
  pub notified : length db'.outbox ≡ length db.outbox + emails (m.user_id == caller.id)

notify-members :
    (s : Settings) (o : Outside) (email_id now org : ℕ) (target : User) (project : Project)
    (caller : User) (db : Db)
    → (notify s o email_id now org target project caller db).project_members ≡ db.project_members
unfolding notify
notify-members s o email_id now org target project caller db =
    elim (Bool-cases (target.id == caller.id)) [ inl own ↦ rw own refl | inr other ↦ rw other refl ]

length-notify :
    (s : Settings) (o : Outside) (email_id now org : ℕ) (target : User) (project : Project)
    (caller : User) (db : Db)
    → length (notify s o email_id now org target project caller db).outbox
      ≡ length db.outbox + emails (target.id == caller.id)
unfolding notify enqueue_email
length-notify s o email_id now org target project caller db =
    elim (Bool-cases (target.id == caller.id)) [
      | inl own ↦ rw own (omega arith)
      | inr other ↦ rw other (length-append db.outbox _)
    ]

abbrev pub AddedBy : ProjectMemberCreate → User → Db → ProjectMember × Db → Type 0
AddedBy payload caller db r = Added payload.project_id caller db r.0 r.1

-- Whenever adding a member to a project returns, the table of members has one row more, an active
-- membership of the project added by the caller, for a user who was not a member before; and the
-- outbox has one email more, or none if the callers add themselves.
pub create_project_member-Added :
    (s : Settings) (o : Outside) (user_id member_id email_id now : ℕ) (caller : User)
    (payload : ProjectMemberCreate) (db : Db)
    → Ensures
        (AddedBy payload caller db)
        (create_project_member s o user_id member_id email_id now caller payload db)
unfolding create_project_member is_member
create_project_member-Added s o user_id member_id email_id now caller payload db =
    Ensures-or_raise (AddedBy payload caller db) caller.organization_id _ _ λ org found_org.
      Ensures-or_raise (AddedBy payload caller db) (active_project payload.project_id db) _ _
        λ project found.
          Ensures-raise_unless (AddedBy payload caller db) (project.organization_id == org) _ _
            λ own.
              Ensures-bind (AddedBy payload caller db)
                (resolve_target o user_id org payload.user_id payload.email db) _
                λ r resolved.
                  let same =
                    Ensures-ok _ _
                      (resolve_target-Ensures o user_id org payload.user_id payload.email db)
                      resolved in
                  Ensures-raise_unless (AddedBy payload caller db)
                    (same_id r.0.organization_id caller.organization_id) _ _
                    λ colleague.
                      Ensures-raise_unless (AddedBy payload caller db) (is_active r.0.status) _ _
                        λ usable.
                          Ensures-raise_unless (AddedBy payload caller db)
                            (can_add_member caller r.0 payload.project_id r.1) _ _
                            λ allowed.
                              Ensures-raise_if (AddedBy payload caller db)
                                (is_member payload.project_id r.0.id r.1) _ _
                                λ new. returns (record {
                                  project = refl;
                                  members = rw (notify-members, same.0) refl;
                                  was_outside =
                                      ap (any (is_membership payload.project_id r.0.id))
                                        (sym same.0)
                                      ∙ new;
                                  active = refl;
                                  by_caller = refl;
                                  notified = rw (length-notify, same.1) refl;
                                })

module _ (s : Settings) (o : Outside) (user_id member_id email_id now org target_id project_id : ℕ)
    (caller target : User) (db : Db) {project : Project}
    (in_organization : caller.organization_id ≡ some org)
    (project_found : active_project project_id db ≡ some project)
    (project_of : (project.organization_id == org) ≡ true)
    (target_found : active_user target_id db ≡ some target)
    (colleague : same_id target.organization_id (some org) ≡ true)
    (usable : is_active target.status ≡ true)
    (allowed : can_add_member caller target project_id db ≡ true)
    (new : is_member project_id target.id db ≡ false) where
  abbrev payload : ProjectMemberCreate
  payload = record { project_id = project_id; user_id = some target_id; email = none }

  create_project_member_returns :
      (r : ProjectMember × Db) × (create_project_member s o user_id member_id email_id now caller
          payload db
        ≡ ok r)
      × (r.0.user_id ≡ target.id)
  unfolding create_project_member resolve_target
  create_project_member_returns =
      simp
        (in_organization, project_found, project_of, target_found, colleague, usable, allowed, new)
        (_, refl, refl)

  -- Adding by id succeeds, with its effects (one active membership more, an email unless the callers
  -- add themselves), for an active user of the caller's organization whom the caller may add to an
  -- active project of that organization and who is not a member yet.
  pub create_project_member_succeeds :
      (r : ProjectMember × Db) × (create_project_member s o user_id member_id email_id now caller
          payload db
        ≡ ok r)
      × (r.0.user_id ≡ target.id)
      × Added project_id caller db r.0 r.1
  create_project_member_succeeds = (
    create_project_member_returns.0,
    create_project_member_returns.1,
    create_project_member_returns.2,
    Ensures-ok _ _
        (create_project_member-Added s o user_id member_id email_id now caller payload db)
        create_project_member_returns.1,
  )
