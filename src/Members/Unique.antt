-- ===== src/Members/Unique.antt =====
-- The active memberships of a user in a project, whatever requests make projects, add members and remove
-- them. A partial unique index of the table is about the same.
use pro_lens_backend.Base.{
  ℕ, ◌≤◌, Bool, false, List, [], ◌∷◌, ◌++◌, ◌≡◌, refl, sym, arith, ◌==◌, any, count, count-append,
  count-any, update_where, ok, Ensures, returns, Ensures-ok, Ensures-or_raise, Ensures-raise_unless,
  Bool-cases, inl, inr,
}
use pro_lens_backend.Config.{Settings}
use pro_lens_backend.Model.{Db, User, Project, ProjectMember}
use pro_lens_backend.Repositories.{live, by_id, user_by_id, is_member, is_membership}
use pro_lens_backend.Projects.{ProjectCreate, create_project}
use pro_lens_backend.Members.{
  ProjectMemberCreate, Outside, create_project_member, delete_project_member, can_remove_member,
  remove_member,
}
use pro_lens_backend.Members.Adding.{Added, create_project_member-Added}

abbrev pub memberships : ℕ → ℕ → List ProjectMember → ℕ
memberships project_id user_id = count (is_membership project_id user_id)

abbrev pub AtMostOnce : Db → Type 0
AtMostOnce db = (p u : ℕ) → memberships p u db.project_members ≤ 1

-- A request that returns, and is committed. The id of a new project is fresh.
pub data Step (db db' : Db) : Type 0 where
  project_created :
      (id member now : ℕ) (caller : User) (payload : ProjectCreate) (p : Project)
      → any (λ (m : ProjectMember). m.project_id == id) db.project_members ≡ false
      → create_project id member now caller payload db ≡ ok (p, db')
      → Step db db'
  member_added :
      (s : Settings) (o : Outside) (user_id member_id email_id now : ℕ) (caller : User)
      (payload : ProjectMemberCreate) (m : ProjectMember)
      → create_project_member s o user_id member_id email_id now caller payload db ≡ ok (m, db')
      → Step db db'
  member_removed :
      (now id : ℕ) (caller : User) → delete_project_member now id caller db ≡ ok db' → Step db db'

pub data Reach (db : Db) : Db → Type 0 where
  here : Reach db db
  next : {d e : Db} → Reach db d → Step d e → Reach db e

-- A new membership of a pair that has none.
append_once :
    (m : ProjectMember) (ms : List ProjectMember)
    → ((p u : ℕ) → memberships p u ms ≤ 1)
    → any (is_membership m.project_id m.user_id) ms ≡ false
    → (p u : ℕ) → memberships p u (ms ++ m ∷ []) ≤ 1
append_once m ms once new p u =
    let none_yet = count-any (is_membership m.project_id m.user_id) ms new in
    rw (count-append (is_membership p u) ms (m ∷ [])) (elim (Bool-cases (is_membership p u m)) [
      | inl hit ↦
          let same_project : m.project_id ≡ p = ground arith in
          let same_user : m.user_id ≡ u = ground arith in
          let none_here : memberships p u ms ≡ 0 = rw (same_project, same_user) at none_yet in
          rw (none_here, hit) (omega arith)
      | inr miss ↦ rw miss (omega (arith, once p u))
    ])

removed_once :
    (q : ProjectMember → Bool) (now by p u : ℕ) (ms : List ProjectMember)
    → memberships p u (update_where q (remove_member now by) ms) ≤ memberships p u ms
removed_once q now by p u [] = omega arith
removed_once q now by p u (m ∷ ms) = ground (arith, removed_once q now by p u ms)

unshared :
    (id u : ℕ) (ms : List ProjectMember)
    → any (λ (m : ProjectMember). m.project_id == id) ms ≡ false
    → any (is_membership id u) ms ≡ false
unshared id u [] h = refl
unshared id u (m ∷ ms) h = ground (arith, unshared id u ms)

module _ (db : Db) (once : AtMostOnce db) where
  create_project-AtMostOnce :
      (id member now : ℕ) (caller : User) (payload : ProjectCreate)
      → any (λ (m : ProjectMember). m.project_id == id) db.project_members ≡ false
      → Ensures (λ r. AtMostOnce r.1) (create_project id member now caller payload db)
  unfolding create_project
  create_project-AtMostOnce id member now caller payload fresh =
      Ensures-or_raise (λ r. AtMostOnce r.1) caller.organization_id _ _
        λ org found.
          returns
            (append_once _ db.project_members once (unshared id caller.id db.project_members fresh))

  delete_project_member-AtMostOnce :
      (now id : ℕ) (caller : User) → Ensures AtMostOnce (delete_project_member now id caller db)
  unfolding delete_project_member
  delete_project_member-AtMostOnce now id caller =
      Ensures-or_raise AtMostOnce
        (live (λ (m : ProjectMember). m.removed_at)
          (by_id (λ (m : ProjectMember). m.id) id db.project_members))
        _ _
        λ member found.
          Ensures-raise_unless AtMostOnce
            (can_remove_member caller (user_by_id member.user_id db) member.project_id db) _ _
            λ allowed. returns (λ p u. omega (
              arith,
              once p u,
              removed_once (λ (m : ProjectMember). m.id == member.id) now caller.id p u
                  db.project_members,
            ))

  Added-AtMostOnce :
      (project_id : ℕ) (caller : User) (m : ProjectMember) (db' : Db)
      → Added project_id caller db m db'
      → AtMostOnce db'
  unfolding is_member
  Added-AtMostOnce project_id caller m db' added p u =
      rw added.members
        (append_once m db.project_members once (rw (sym added.project) at added.was_outside) p u)

Step-AtMostOnce : {d e : Db} → Step d e → AtMostOnce d → AtMostOnce e
Step-AtMostOnce {d} (project_created id member now c payload p fresh h) once =
    Ensures-ok _ _ (create_project-AtMostOnce d once id member now c payload fresh) h
Step-AtMostOnce {d} {e} (member_added s o user_id member_id email_id now c payload m h) once =
    Added-AtMostOnce d once payload.project_id c m e (
      Ensures-ok _ _ (create_project_member-Added s o user_id member_id email_id now c payload d) h)
Step-AtMostOnce {d} (member_removed now id c h) once =
    Ensures-ok _ _ (delete_project_member-AtMostOnce d once now id c) h

-- From a database in which nobody is an active member of a project twice, this stays so after any
-- sequence of successful requests that make projects, each with an id that no membership has, add
-- members and remove them.
pub Reach-AtMostOnce : {d e : Db} → AtMostOnce d → Reach d e → AtMostOnce e
Reach-AtMostOnce once here = once
Reach-AtMostOnce once (next r st) = Step-AtMostOnce st (Reach-AtMostOnce once r)
