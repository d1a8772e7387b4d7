-- ===== src/Calendar/Tests.antt =====
-- Calendar events on small inputs.
use pro_lens_backend.Base.{ℕ, none, some, Option, [], ◌∷◌, ◌≡◌, refl, ok, err}
use pro_lens_backend.Errors.{Error}
use pro_lens_backend.Enums.{UserRole, CalendarEventType}
use pro_lens_backend.Model.{Db, CalendarEvent}
use pro_lens_backend.Model.Samples.{person, database}
use pro_lens_backend.Calendar.{CalendarEventUpdate, create_event, update_event, delete_event}

abbrev event : CalendarEventType → Option ℕ → CalendarEvent
event event_type leave_log = record {
  id = 1;
  organization_id = 1;
  source_leave_log_id = leave_log;
  title = [];
  description = none;
  event_type = event_type;
  start_time = 5;
  end_time = 9;
  created_by = 2;
  created_at = 0;
  deleted_at = none;
  deleted_by = none;
}

abbrev calendar : CalendarEvent → Db
calendar e = record (database [] []) { calendar_events = e ∷ [] }

abbrev ending_at : ℕ → CalendarEventUpdate
ending_at t = record {
  title = none;
  description = none;
  event_type = none;
  start_time = none;
  end_time = some t;
}

employee_holiday :
    create_event 1 0
      (record {
        title = [];
        description = none;
        event_type = CalendarEventType.holiday;
        start_time = 5;
        end_time = 9;
      })
      (person 2 UserRole.employee)
      (database [] [])
    ≡ err Error.insufficient_permission
unfolding create_event
employee_holiday = refl

moved :
    update_event 1
      (ending_at 7)
      (person 2 UserRole.employee)
      (calendar (event CalendarEventType.team_event none))
    ≡ ok (
      record (event CalendarEventType.team_event none) { end_time = 7 },
      calendar (record (event CalendarEventType.team_event none) { end_time = 7 }),
    )
unfolding update_event
moved = refl

-- The new end is compared with the start that stays.
reversed :
    update_event 1
      (ending_at 4)
      (person 2 UserRole.employee)
      (calendar (event CalendarEventType.team_event none))
    ≡ err (Error.app_exception 422)
unfolding update_event
reversed = refl

generated :
    delete_event 7 1
      (person 1 UserRole.admin)
      (calendar (event CalendarEventType.team_event (some 3)))
    ≡ err Error.insufficient_permission
unfolding delete_event
generated = refl
