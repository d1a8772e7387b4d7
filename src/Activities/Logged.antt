-- ===== src/Activities/Logged.antt =====
-- Whose time is logged, and on which targets.
use pro_lens_backend.Base.{
  ℕ, ◌≤◌, true, Option, none, some, [], ◌∷◌, ◌++◌, ◌&&◌, ◌||◌, not, same_id, ◌≡◌, refl, arith,
  Ensures, returns, raises, Ensures-bind, Ensures-ok, Ensures-or_raise, Ensures-raise_if,
  Ensures-raise_unless, raise_unless-Ensures,
}
use pro_lens_backend.Enums.{is_admin_role}
use pro_lens_backend.Model.{Db, User, Task, Activity, TimeLog}
use pro_lens_backend.Repositories.{live, task_by_id, active_task, is_active_assignee}
use pro_lens_backend.Activities.{activity_by_id, active_activity, is_activity_assignee}
use pro_lens_backend.Activities.TimeLogs.{
  TimeLogCreate, require_assigned_target, violates_time_log_checks, create_time_log, within_day,
  one_target,
}

-- The targets that a caller may log time on: an active task or activity of the caller's organization
-- that the caller is assigned to, unless the caller is an admin.
abbrev pub MayLog : Option ℕ → Option ℕ → User → Db → Type 0
MayLog (some task_id) activity_id caller db =
    (t : Task) × (active_task task_id db ≡ some t)
    × (same_id (some t.organization_id) caller.organization_id ≡ true)
    × ((is_admin_role caller.role || is_active_assignee t.id caller.id db) ≡ true)
MayLog none (some activity_id) caller db =
    (a : Activity) × (active_activity activity_id db ≡ some a)
    × (same_id (some a.organization_id) caller.organization_id ≡ true)
    × ((is_admin_role caller.role || is_activity_assignee a.id caller.id db) ≡ true)
MayLog none none caller db = ⊥

require_assigned_target-MayLog :
    (task_id activity_id : Option ℕ) (caller : User) (db : Db)
    → Ensures
        (λ _. MayLog task_id activity_id caller db)
        (require_assigned_target task_id activity_id caller db)
unfolding require_assigned_target active_task active_activity
require_assigned_target-MayLog (some t) activity_id caller db =
    Ensures-or_raise _ (live (λ (x : Task). x.deleted_at) (task_by_id t db)) _ _ λ task found.
      Ensures-raise_unless _ (same_id (some task.organization_id) caller.organization_id) _ _ λ own.
        raise_unless-Ensures _
          (is_admin_role caller.role || is_active_assignee task.id caller.id db) _
          λ assigned. (task, found, own, assigned)
require_assigned_target-MayLog none (some a) caller db =
    Ensures-or_raise _ (live (λ (x : Activity). x.deleted_at) (activity_by_id a db)) _ _
      λ activity found.
        Ensures-raise_unless _ (same_id (some activity.organization_id) caller.organization_id) _ _
          λ own.
            raise_unless-Ensures _
              (is_admin_role caller.role || is_activity_assignee activity.id caller.id db) _
              λ assigned. (activity, found, own, assigned)
require_assigned_target-MayLog none none caller db = raises

pub record Logged (payload : TimeLogCreate) (caller : User) (db : Db) (l : TimeLog) (db' : Db)
    : Type 0 where
  pub rows : db'.time_logs ≡ db.time_logs ++ l ∷ []
  pub own : l.user_id ≡ caller.id
  pub organization : caller.organization_id ≡ some l.organization_id
  pub targets : (l.task_id ≡ payload.task_id) × (l.activity_id ≡ payload.activity_id)
  pub may_log : MayLog l.task_id l.activity_id caller db
  pub one : one_target l.task_id l.activity_id ≡ true
  pub minutes : (1 ≤ l.duration_minutes) × (l.duration_minutes ≤ 1440)

abbrev pub LoggedBy : TimeLogCreate → User → Db → TimeLog × Db → Type 0
LoggedBy payload caller db r = Logged payload caller db r.0 r.1

-- Whenever logging time returns, the table has one row more: an entry of the caller in the caller's
-- organization, of 1 to 1440 minutes, on exactly one task or activity, which is active, of that
-- organization, and one that the caller is assigned to, unless the caller is an admin.
pub create_time_log-Logged :
    (new_id now : ℕ) (payload : TimeLogCreate) (caller : User) (db : Db)
    → Ensures (LoggedBy payload caller db) (create_time_log new_id now payload caller db)
unfolding create_time_log violates_time_log_checks
create_time_log-Logged new_id now payload caller db =
    let P = LoggedBy payload caller db in
    Ensures-bind P (require_assigned_target payload.task_id payload.activity_id caller db) _
      λ u assigned. Ensures-or_raise P caller.organization_id _ _ λ org found.
        Ensures-raise_if P
          (not
            (within_day payload.duration_minutes && one_target payload.task_id payload.activity_id))
          _ _
          λ valid. returns (record {
            rows = refl;
            own = refl;
            organization = found;
            targets = (refl, refl);
            may_log =
                Ensures-ok _ _
                  (require_assigned_target-MayLog payload.task_id payload.activity_id caller db)
                  assigned;
            one = ground (arith, valid);
            minutes = (ground (arith, valid), ground (arith, valid));
          })
