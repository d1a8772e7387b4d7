-- ===== src/Activities/TimeLogs.antt =====
-- app/services/time_log.py with app/repositories/time_log.py and app/schemas/time_log.py.
use pro_lens_backend.Base.{
  ℕ, Bool, Option, none, some, [], ◌∷◌, ◌++◌, ◌==◌, ◌&&◌, ◌||◌, not, same_id, is_none, leb, Result,
  ok, err, ◌>>=◌, ◌>>◌, raise_if, raise_unless, or_raise, update_where, if◌then◌else◌,
}
use pro_lens_backend.Config.{Text}
use pro_lens_backend.Errors.{Error, Violation}
use pro_lens_backend.Enums.{is_admin_role, is_employee}
use pro_lens_backend.Model.{Db, User, Task, Activity, TimeLog}
use pro_lens_backend.Repositories.{live, by_id, task_by_id, is_active_assignee}
use pro_lens_backend.Projects.{set_or}
use pro_lens_backend.Activities.{activity_by_id, is_activity_assignee}

pub record TimeLogCreate : Type 0 where
  pub task_id : Option ℕ
  pub activity_id : Option ℕ
  pub log_date : ℕ
  pub duration_minutes : ℕ
  pub description : Option Text

pub record TimeLogUpdate : Type 0 where
  pub log_date : Option ℕ
  pub duration_minutes : Option ℕ
  pub description : Option (Option Text)

-- `Field(ge=1, le=1440)`, and the two check constraints on the duration
abbrev pub within_day : ℕ → Bool
within_day minutes = leb 1 minutes && leb minutes 1440

-- `check_exclusive_target`, and the check constraint on the targets
abbrev pub one_target : Option ℕ → Option ℕ → Bool
one_target task_id activity_id =
    if is_none task_id then not (is_none activity_id) else is_none activity_id

-- What the schemas accept
abbrev pub accepts_create : TimeLogCreate → Bool
accepts_create payload =
    within_day payload.duration_minutes && one_target payload.task_id payload.activity_id

abbrev pub accepts_update : TimeLogUpdate → Bool
accepts_update payload = within_day (set_or payload.duration_minutes 1)

-- The check constraints of the table time_logs
unfoldable pub violates_time_log_checks : TimeLog → Bool
violates_time_log_checks l =
    not (within_day l.duration_minutes && one_target l.task_id l.activity_id)

abbrev same_organization : ℕ → User → Bool
same_organization organization_id caller = same_id (some organization_id) caller.organization_id

-- The second part of `_require_assigned_target`
abbrev require_activity : Option ℕ → User → Db → Result (Unit {0})
require_activity none caller db = err (Error.app_exception 404)
require_activity (some activity_id) caller db = do
  activity ←
      or_raise (live (λ (a : Activity). a.deleted_at) (activity_by_id activity_id db))
        (Error.app_exception 404)
  raise_unless (same_organization activity.organization_id caller) (Error.app_exception 404)
  raise_unless (is_admin_role caller.role || is_activity_assignee activity.id caller.id db)
      Error.insufficient_permission

unfoldable pub require_assigned_target : Option ℕ → Option ℕ → User → Db → Result (Unit {0})
require_assigned_target none activity_id caller db = require_activity activity_id caller db
require_assigned_target (some task_id) activity_id caller db = do
  task ← or_raise (live (λ (t : Task). t.deleted_at) (task_by_id task_id db)) Error.task_not_found
  raise_unless (same_organization task.organization_id caller) Error.task_not_found
  raise_unless (is_admin_role caller.role || is_active_assignee task.id caller.id db)
      Error.insufficient_permission

unfoldable pub create_time_log : ℕ → ℕ → TimeLogCreate → User → Db → Result (TimeLog × Db)
unfolding require_assigned_target violates_time_log_checks
create_time_log new_id now payload caller db = do
  require_assigned_target payload.task_id payload.activity_id caller db
  org ← or_raise caller.organization_id (Error.integrity_error Violation.not_null)
  let time_log : TimeLog = record {
    id = new_id;
    organization_id = org;
    user_id = caller.id;
    task_id = payload.task_id;
    activity_id = payload.activity_id;
    log_date = payload.log_date;
    duration_minutes = payload.duration_minutes;
    description = payload.description;
    created_at = now;
    deleted_at = none;
    deleted_by = none;
  }
  raise_if (violates_time_log_checks time_log) (Error.integrity_error Violation.check)
  ok (time_log, record db { time_logs = db.time_logs ++ time_log ∷ [] })

-- The user whose logs `list_time_logs` shows: employees see their own.
unfoldable pub listed_user : User → Option ℕ → Result (Option ℕ)
listed_user caller user_id =
    if is_employee caller.role
    then (raise_unless (is_none user_id || same_id user_id (some caller.id))
          Error.insufficient_permission
        >> ok (some caller.id))
    else ok user_id

unfoldable pub get_own_time_log : ℕ → User → Db → Result TimeLog
get_own_time_log time_log_id caller db = do
  time_log ←
      or_raise
        (live (λ (l : TimeLog). l.deleted_at)
          (by_id (λ (l : TimeLog). l.id) time_log_id db.time_logs))
        (Error.app_exception 404)
  raise_unless (same_organization time_log.organization_id caller) (Error.app_exception 404)
  raise_unless (time_log.user_id == caller.id) Error.insufficient_permission
  ok time_log

abbrev pub apply_time_log_update : TimeLogUpdate → TimeLog → TimeLog
apply_time_log_update u l = record l {
  log_date = set_or u.log_date l.log_date;
  duration_minutes = set_or u.duration_minutes l.duration_minutes;
  description = set_or u.description l.description;
}

unfoldable pub update_time_log : ℕ → TimeLogUpdate → User → Db → Result (TimeLog × Db)
unfolding get_own_time_log violates_time_log_checks
update_time_log time_log_id payload caller db = do
  time_log ← get_own_time_log time_log_id caller db
  raise_if (violates_time_log_checks (apply_time_log_update payload time_log))
      (Error.integrity_error Violation.check)
  ok (
    apply_time_log_update payload time_log,
    record db {
      time_logs =
          update_where (λ (l : TimeLog). l.id == time_log.id) (apply_time_log_update payload)
            db.time_logs;
    },
  )

abbrev pub soft_delete_time_log : ℕ → ℕ → TimeLog → TimeLog
soft_delete_time_log now by l = record l { deleted_at = some now; deleted_by = some by }

unfoldable pub delete_time_log : ℕ → ℕ → User → Db → Result Db
unfolding get_own_time_log
delete_time_log now time_log_id caller db = do
  time_log ← get_own_time_log time_log_id caller db
  ok (record db {
    time_logs =
        update_where (λ (l : TimeLog). l.id == time_log.id) (soft_delete_time_log now caller.id)
          db.time_logs;
  })
