-- ===== src/Activities/Tests.antt =====
-- Activities and time logs on small inputs, and the witness.
use pro_lens_backend.Base.{ℕ, none, some, [], ◌∷◌, ◌≡◌, refl, ok, err, Ensures}
use pro_lens_backend.Errors.{Error, Violation}
use pro_lens_backend.Enums.{UserRole, EntityStatus}
use pro_lens_backend.Model.{Db, Activity, ActivityAssignee, TimeLog}
use pro_lens_backend.Model.Samples.{person, membership, database}
use pro_lens_backend.Activities.{create_activity_assignee, is_activity_assignee, activity_by_id}
use pro_lens_backend.Repositories.{is_member, active_user, user_by_id}
use pro_lens_backend.Activities.TimeLogs.{TimeLogCreate, create_time_log}
use pro_lens_backend.Activities.Logged.{LoggedBy, create_time_log-Logged}

abbrev activity : Activity
activity = record {
  id = 50;
  organization_id = 1;
  project_id = some 10;
  name = [];
  description = none;
  status = EntityStatus.to_do;
  created_by = 3;
  updated_by = none;
  created_at = 0;
  deleted_at = none;
  deleted_by = none;
}

abbrev assignment : ActivityAssignee
assignment = record {
  id = 60;
  organization_id = 1;
  activity_id = 50;
  user_id = 2;
  assigned_by = 3;
  assigned_at = 0;
  removed_at = none;
  removed_by = none;
}

abbrev office : Db
office = record (database (membership 2 ∷ membership 3 ∷ []) []) {
  activities = activity ∷ [];
  activity_assignees = assignment ∷ [];
}

abbrev hours : ℕ → TimeLogCreate
hours minutes = record {
  task_id = none;
  activity_id = some 50;
  log_date = 9;
  duration_minutes = minutes;
  description = none;
}

abbrev entry : TimeLog
entry = record {
  id = 70;
  organization_id = 1;
  user_id = 2;
  task_id = none;
  activity_id = some 50;
  log_date = 9;
  duration_minutes = 1440;
  description = none;
  created_at = 5;
  deleted_at = none;
  deleted_by = none;
}

logged :
    create_time_log 70 5 (hours 1440) (person 2 UserRole.employee) office
    ≡ ok (entry, record office { time_logs = entry ∷ [] })
unfolding create_time_log activity_by_id is_activity_assignee
logged = refl

too_long :
    create_time_log 70 5 (hours 1441) (person 2 UserRole.employee) office
    ≡ err (Error.integrity_error Violation.check)
unfolding create_time_log activity_by_id is_activity_assignee
too_long = refl

not_assigned :
    create_time_log 70 5 (hours 30) (person 3 UserRole.manager) office
    ≡ err Error.insufficient_permission
unfolding create_time_log activity_by_id is_activity_assignee
not_assigned = refl

assigned_twice :
    create_activity_assignee 61 5
      (record { activity_id = 50; user_id = 2 })
      (person 3 UserRole.manager)
      office
    ≡ err (Error.app_exception 409)
unfolding create_activity_assignee active_user user_by_id is_member
assigned_twice = refl

create_time_log-Logged_example :
    Ensures
      (LoggedBy (hours 1440) (person 2 UserRole.employee) office)
      (create_time_log 70 5 (hours 1440) (person 2 UserRole.employee) office)
create_time_log-Logged_example =
    create_time_log-Logged 70 5 (hours 1440) (person 2 UserRole.employee) office
