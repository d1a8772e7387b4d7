-- ===== src/Listings/Tests.antt =====
-- Listings on small inputs.
use pro_lens_backend.Base.{
  arith, true, any, ◌==◌, ℕ, ◌-◌, Option, none, some, [], ◌∷◌, ◌≡◌, refl, ok, err,
}
use pro_lens_backend.Errors.{Error}
use pro_lens_backend.Enums.{UserRole, CalendarEventType}
use pro_lens_backend.Model.{Db, Task, TimeLog, CalendarEvent}
use pro_lens_backend.Model.Samples.{person, task, database}
use pro_lens_backend.Listings.{
  Pagination, TimeLogFilter, list_time_logs, list_events, list_comments,
}
use pro_lens_backend.Repositories.{active_task, task_by_id, is_active_assignee}
use pro_lens_backend.Tasks.{can_write}
use pro_lens_backend.Listings.Visible.{list_tasks}
use pro_lens_backend.Listings.Writers.{only_task, can_write-list_tasks}

abbrev all_rows : Pagination
all_rows = record { limit = 100; offset = 0 }

abbrev log : ℕ → ℕ → TimeLog
log id user_id = record {
  id = id;
  organization_id = 1;
  user_id = user_id;
  task_id = some 30;
  activity_id = none;
  log_date = 9;
  duration_minutes = 60;
  description = none;
  created_at = 10 - id;
  deleted_at = none;
  deleted_by = none;
}

abbrev logs : Db
logs = record (database [] []) { time_logs = log 1 2 ∷ log 2 4 ∷ log 3 2 ∷ [] }

abbrev of_user : Option ℕ → TimeLogFilter
of_user user_id = record {
  id = none;
  user_id = user_id;
  task_id = some 30;
  activity_id = none;
  log_date = none;
  from_date = some 9;
  to_date = some 9;
}

-- An employee's own logs, the earliest first; the second page of one row; and another user's
own_logs :
    list_time_logs (person 2 UserRole.employee) all_rows (of_user none) logs
    ≡ ok (log 3 2 ∷ log 1 2 ∷ [])
unfolding list_time_logs
own_logs = refl

second_page :
    list_time_logs
      (person 2 UserRole.employee)
      (record { limit = 1; offset = 1 })
      (of_user none)
      logs
    ≡ ok (log 1 2 ∷ [])
unfolding list_time_logs
second_page = refl

others_logs :
    list_time_logs (person 2 UserRole.employee) all_rows (of_user (some 4)) logs
    ≡ err Error.insufficient_permission
unfolding list_time_logs
others_logs = refl

-- The filter that no comment can match
comments_of_activity :
    list_comments all_rows
      (record {
        id = none;
        project_id = none;
        feature_id = none;
        task_id = none;
        activity_id = some 50;
        user_id = none;
      })
      logs
    ≡ err Error.attribute_error
unfolding list_comments
comments_of_activity = refl

abbrev event : ℕ → ℕ → CalendarEvent
event start end = record {
  id = start;
  organization_id = 1;
  source_leave_log_id = none;
  title = [];
  description = none;
  event_type = CalendarEventType.holiday;
  start_time = start;
  end_time = end;
  created_by = 2;
  created_at = 0;
  deleted_at = none;
  deleted_by = none;
}

-- From 5 to 7: the events that cross a boundary, but not those before or after.
events_in_range :
    list_events all_rows
      (record {
        id = none;
        event_type = some CalendarEventType.holiday;
        range_start = some 5;
        range_end = some 7;
      })
      (record (database [] []) {
        calendar_events = event 8 9 ∷ event 7 9 ∷ event 1 5 ∷ event 1 4 ∷ [];
      })
    ≡ event 1 5 ∷ event 7 9 ∷ []
unfolding list_events
events_in_range = refl

-- Task 30, and user 2, an employee who is assigned to it
abbrev assigned : Db
assigned = record (database [] (task none none ∷ [])) {
  task_assignees =
      record {
        id = 70;
        organization_id = 1;
        task_id = 30;
        user_id = 2;
        assigned_by = 1;
        assigned_at = 0;
        removed_at = none;
        removed_by = none;
      }
      ∷ [];
}

can_write-list_tasks_example :
    any
      (λ (t : Task). t.id == 30)
      (list_tasks
        (person 2 UserRole.employee)
        (record { limit = 1; offset = 0 })
        (only_task 30)
        assigned)
    ≡ true
unfolding active_task task_by_id can_write is_active_assignee
can_write-list_tasks_example =
    can_write-list_tasks (person 2 UserRole.employee) 30 1 (task none none) assigned refl refl
      (omega arith)
