-- ===== src/Calendar.antt =====
-- app/services/calendar_event_service.py with its repository and app/schemas/calendar_event.py.
mod Tests
use pro_lens_backend.Base.{
  ℕ, Bool, true, false, Option, none, some, [], ◌∷◌, ◌++◌, ◌==◌, ◌&&◌, ◌||◌, not, same_id, is_none,
  leb, ltb, Result, ok, err, ◌>>=◌, ◌>>◌, raise_if, raise_unless, or_raise, update_where,
}
use pro_lens_backend.Config.{Text}
use pro_lens_backend.Errors.{Error, Violation}
use pro_lens_backend.Enums.{
  UserRole, CalendarEventType, is_admin_role, is_super_admin, is_manager, is_employee,
  is_leave_event,
}
use pro_lens_backend.Model.{Db, User, CalendarEvent}
use pro_lens_backend.Repositories.{live, by_id}
use pro_lens_backend.Projects.{set_or}

pub record CalendarEventCreate : Type 0 where
  pub title : Text
  pub description : Option Text
  pub event_type : CalendarEventType
  pub start_time : ℕ
  pub end_time : ℕ

pub record CalendarEventUpdate : Type 0 where
  pub title : Option Text
  pub description : Option (Option Text)
  pub event_type : Option CalendarEventType
  pub start_time : Option ℕ
  pub end_time : Option ℕ

-- `_CREATE_ROLES`, without the leave events, which nobody creates.
unfoldable pub create_roles : CalendarEventType → UserRole → Bool
create_roles CalendarEventType.holiday role = is_admin_role role
create_roles CalendarEventType.milestone role = is_admin_role role || is_manager role
create_roles CalendarEventType.release role = is_admin_role role || is_manager role
create_roles CalendarEventType.team_event role =
    is_admin_role role || is_manager role || is_employee role
create_roles CalendarEventType.leave role = false

unfoldable pub require_type_permission : CalendarEventType → User → Result (Unit {0})
unfolding create_roles
require_type_permission event_type caller = do
  raise_if (is_leave_event event_type) Error.insufficient_permission
  raise_unless (create_roles event_type caller.role) Error.insufficient_permission

-- `chk_calendar_event_timeline`, and `check_time_order` of the schema
abbrev pub ends_before_start : ℕ → ℕ → Bool
ends_before_start start_time end_time = ltb end_time start_time

unfoldable pub create_event : ℕ → ℕ → CalendarEventCreate → User → Db → Result (CalendarEvent × Db)
unfolding require_type_permission
create_event new_id now payload caller db = do
  require_type_permission payload.event_type caller
  org ← or_raise caller.organization_id (Error.integrity_error Violation.not_null)
  raise_if (ends_before_start payload.start_time payload.end_time)
      (Error.integrity_error Violation.check)
  let event : CalendarEvent = record {
    id = new_id;
    organization_id = org;
    source_leave_log_id = none;
    title = payload.title;
    description = payload.description;
    event_type = payload.event_type;
    start_time = payload.start_time;
    end_time = payload.end_time;
    created_by = caller.id;
    created_at = now;
    deleted_at = none;
    deleted_by = none;
  }
  ok (event, record db { calendar_events = db.calendar_events ++ event ∷ [] })

unfoldable pub get_modifiable : ℕ → User → Db → Result CalendarEvent
get_modifiable event_id caller db = do
  event ←
      or_raise
        (live (λ (e : CalendarEvent). e.deleted_at)
          (by_id (λ (e : CalendarEvent). e.id) event_id db.calendar_events))
        (Error.app_exception 404)
  raise_unless
      (is_super_admin caller.role || same_id (some event.organization_id) caller.organization_id)
      (Error.app_exception 404)
  raise_if (is_leave_event event.event_type || not (is_none event.source_leave_log_id))
      Error.insufficient_permission
  raise_unless (is_admin_role caller.role || event.created_by == caller.id)
      Error.insufficient_permission
  ok event

abbrev pub apply_event_update : CalendarEventUpdate → CalendarEvent → CalendarEvent
apply_event_update u e = record e {
  title = set_or u.title e.title;
  description = set_or u.description e.description;
  event_type = set_or u.event_type e.event_type;
  start_time = set_or u.start_time e.start_time;
  end_time = set_or u.end_time e.end_time;
}

-- `if "event_type" in update_data`
abbrev pub require_new_type : Option CalendarEventType → User → Result (Unit {0})
require_new_type none caller = ok tt
require_new_type (some event_type) caller = require_type_permission event_type caller

unfoldable pub update_event : ℕ → CalendarEventUpdate → User → Db → Result (CalendarEvent × Db)
unfolding get_modifiable require_type_permission
update_event event_id payload caller db = do
  event ← get_modifiable event_id caller db
  require_new_type payload.event_type caller
  raise_if
      (ends_before_start (set_or payload.start_time event.start_time)
        (set_or payload.end_time event.end_time))
      (Error.app_exception 422)
  ok (
    apply_event_update payload event,
    record db {
      calendar_events =
          update_where (λ (e : CalendarEvent). e.id == event.id) (apply_event_update payload)
            db.calendar_events;
    },
  )

abbrev pub soft_delete_event : ℕ → ℕ → CalendarEvent → CalendarEvent
soft_delete_event now by e = record e { deleted_at = some now; deleted_by = some by }

unfoldable pub delete_event : ℕ → ℕ → User → Db → Result Db
unfolding get_modifiable
delete_event now event_id caller db = do
  event ← get_modifiable event_id caller db
  ok (record db {
    calendar_events =
        update_where (λ (e : CalendarEvent). e.id == event.id) (soft_delete_event now caller.id)
          db.calendar_events;
  })
