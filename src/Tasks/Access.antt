-- ===== src/Tasks/Access.antt =====
-- Who may write a task, as the docstring of `TaskService` puts it, and what a permitted update does.
use pro_lens_backend.Base.{
  ℕ, Bool, true, false, Option, none, some, ◌≡◌, refl, ap, arith, ◌↔◌, inl, inr, ◌&&◌, ◌==◌, ==_iff,
  Bool-cases, Option-cases,
}
use pro_lens_backend.Enums.{UserRole, is_admin_role, is_manager, is_employee}
use pro_lens_backend.Model.{Db, User, Feature, Task}
use pro_lens_backend.Repositories.{feature_by_id, is_member, is_active_assignee}
use pro_lens_backend.Tasks.{manages, can_manage, can_write}

pub data MayWrite (caller : User) (task : Task) (for_delete : Bool) (db : Db) : Type 0 where
  -- everything in the organization
  as_admin : is_admin_role caller.role ≡ true → MayWrite caller task for_delete db
  -- tasks of projects they are an active member of
  as_member :
      (k : ℕ) (f : Feature)
      → is_manager caller.role ≡ true
      → task.feature_id ≡ some k
      → feature_by_id k db ≡ some f
      → is_member f.project_id caller.id db ≡ true
      → MayWrite caller task for_delete db
  -- standalone tasks only when they created them
  as_author :
      is_manager caller.role ≡ true
      → task.feature_id ≡ none
      → task.created_by ≡ caller.id
      → MayWrite caller task for_delete db
  -- tasks they are an active assignee of
  as_assignee :
      is_employee caller.role ≡ true
      → is_active_assignee task.id caller.id db ≡ true
      → MayWrite caller task for_delete db
  -- delete also when they created it
  as_creator :
      is_employee caller.role ≡ true
      → for_delete ≡ true
      → task.created_by ≡ caller.id
      → MayWrite caller task for_delete db

may_write :
    (caller : User) (task : Task) (for_delete : Bool) (db : Db)
    → MayWrite caller task for_delete db
    → can_write caller task for_delete db ≡ true
unfolding can_write can_manage
may_write caller task d db (as_admin a) = ground (arith, a)
may_write caller task d db (as_member k f m e found mem) = rw (e, found) (ground arith)
may_write caller task d db (as_author m e own) = rw e (ground arith)
may_write caller task d db (as_assignee e a) = ground arith
may_write caller task d db (as_creator e fd own) = ground arith

manages-MayWrite :
    (caller : User) (task : Task) (for_delete : Bool) (db : Db)
    → is_manager caller.role ≡ true
    → (o : Option ℕ) → task.feature_id ≡ o
    → manages caller o task.created_by db ≡ true
    → MayWrite caller task for_delete db
manages-MayWrite caller task d db m none e h = as_author m e ((==_iff _ _).0 h)
manages-MayWrite caller task d db m (some k) e h = elim (Option-cases (feature_by_id k db)) [
  | inl missing ↦ let no : false ≡ true = rw missing at h in absurd (let z : ⊥ = cc in z)
  | inr found ↦ as_member k found.0 m e found.1 (rw (found.1) at h)
]

-- The code's test agrees with the rules that are written above it: the test holds exactly if one of
-- the rules for admins, managers, assignees and, for a deletion, creators lets the caller write.
pub can_write-MayWrite :
    (caller : User) (task : Task) (for_delete : Bool) (db : Db)
    → (can_write caller task for_delete db ≡ true) ↔ MayWrite caller task for_delete db
unfolding can_write can_manage
can_write-MayWrite caller task d db = (allowed caller.role refl, may_write caller task d db)
  where
    allowed :
        (role : UserRole)
        → caller.role ≡ role
        → can_write caller task d db ≡ true
        → MayWrite caller task d db
    allowed UserRole.super_admin e h = as_admin (ap is_admin_role e)
    allowed UserRole.admin e h = as_admin (ap is_admin_role e)
    allowed UserRole.manager e h =
        manages-MayWrite caller task d db (ap is_manager e) task.feature_id refl (rw e at h)
    allowed UserRole.employee e h = elim (Bool-cases (is_active_assignee task.id caller.id db)) [
      | inl assigned ↦ as_assignee (ap is_employee e) assigned
      | inr other ↦
          let both : (d && task.created_by == caller.id) ≡ true = rw (e, other) at h in
          as_creator (ap is_employee e) (ground arith) (ground arith)
    ]
