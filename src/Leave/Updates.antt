-- ===== src/Leave/Updates.antt =====
-- Changing and deleting a leave in app/services/leave_log_service.py.
use pro_lens_backend.Base.{
  ℕ, Bool, true, false, Option, some, List, [], ◌∷◌, ◌==◌, ◌&&◌, ◌||◌, is_none, leb, ltb, select,
  update_where, Result, ok, err, ◌>>=◌, ◌>>◌, raise_if, raise_unless, or_raise, sort,
}
use pro_lens_backend.Config.{Text}
use pro_lens_backend.Errors.{Error}
use pro_lens_backend.Enums.{LeaveType, is_admin, is_manager}
use pro_lens_backend.Model.{Db, User, LeaveLog, LeaveLogDay}
use pro_lens_backend.Leave.{active_leave_log, first_row_start}

pub record LeaveLogUpdate : Type 0 where
  pub leave_type : Option LeaveType
  pub reason : Option (Option Text)

-- `not days`
abbrev pub is_empty {ℓ} : {A : Type ℓ} → List A → Bool
is_empty [] = true
is_empty (_ ∷ _) = false

-- `list_active_by_leave_log`
abbrev pub is_active_day_of : ℕ → LeaveLogDay → Bool
is_active_day_of leave_log_id d = (d.leave_log_id == leave_log_id) && is_none d.deleted_at

unfoldable pub list_active_days : ℕ → List LeaveLogDay → List LeaveLogDay
list_active_days leave_log_id rows =
    sort (λ (d : LeaveLogDay) (e : LeaveLogDay). leb d.leave_date e.leave_date)
      (select (is_active_day_of leave_log_id) rows)

abbrev pub can_delete : User → LeaveLog → ℕ → ℕ → Bool
can_delete caller log current_first_period_start now =
    (caller.id == log.user_id) && ltb now current_first_period_start

abbrev pub can_update : User → LeaveLog → ℕ → ℕ → Bool
can_update caller log current_first_period_start now =
    is_admin caller.role
    || is_manager caller.role
    || can_delete caller log current_first_period_start now

abbrev pub delete_day : ℕ → ℕ → LeaveLogDay → LeaveLogDay
delete_day now by d = record d { deleted_at = some now; deleted_by = some by }

-- `update_leave_log` ends where it reads `payload.days`, which the schema of an update does not have.
unfoldable pub update_leave_log : ℕ → ℕ → LeaveLogUpdate → User → Db → Result (LeaveLog × Db)
unfolding active_leave_log list_active_days first_row_start
update_leave_log now leave_log_id payload caller db = do
  log ← or_raise (active_leave_log leave_log_id db) Error.leave_log_not_found
  let current_days = list_active_days log.id db.leave_days
  raise_if (is_empty current_days) Error.leave_log_not_found
  start ← first_row_start current_days
  raise_unless (can_update caller log start now) Error.leave_log_mutation_forbidden
  err Error.attribute_error

abbrev pub delete_log : ℕ → ℕ → LeaveLog → LeaveLog
delete_log now by l = record l { deleted_at = some now; deleted_by = some by }

unfoldable pub delete_leave_log : ℕ → ℕ → User → Db → Result Db
unfolding active_leave_log list_active_days first_row_start
delete_leave_log now leave_log_id caller db = do
  log ← or_raise (active_leave_log leave_log_id db) Error.leave_log_not_found
  let active_days = list_active_days log.id db.leave_days
  raise_if (is_empty active_days) Error.leave_log_not_found
  start ← first_row_start active_days
  raise_unless (can_delete caller log start now) Error.leave_log_mutation_forbidden
  ok (record db {
    leave_logs =
        update_where (λ (l : LeaveLog). l.id == log.id) (delete_log now caller.id) db.leave_logs;
    leave_days = update_where (is_active_day_of log.id) (delete_day now caller.id) db.leave_days;
  })
