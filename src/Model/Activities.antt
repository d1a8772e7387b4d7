-- ===== src/Model/Activities.antt =====
-- The rows of activities in app/models/task.py, of time logs and calendar events in
-- app/models/timesheet.py, and of app/models/sso.py.
use pro_lens_backend.Base.{ℕ, Option}
use pro_lens_backend.Config.{Text}
use pro_lens_backend.Enums.{EntityStatus, CalendarEventType, SsoProvider}

pub record Activity : Type 0 where
  pub id : ℕ
  pub organization_id : ℕ
  pub project_id : Option ℕ
  pub name : Text
  pub description : Option Text
  pub status : EntityStatus
  pub created_by : ℕ
  pub updated_by : Option ℕ
  pub created_at : ℕ
  pub deleted_at : Option ℕ
  pub deleted_by : Option ℕ

pub record ActivityAssignee : Type 0 where
  pub id : ℕ
  pub organization_id : ℕ
  pub activity_id : ℕ
  pub user_id : ℕ
  pub assigned_by : ℕ
  pub assigned_at : ℕ
  pub removed_at : Option ℕ
  pub removed_by : Option ℕ

pub record TimeLog : Type 0 where
  pub id : ℕ
  pub organization_id : ℕ
  pub user_id : ℕ
  pub task_id : Option ℕ
  pub activity_id : Option ℕ
  pub log_date : ℕ
  pub duration_minutes : ℕ
  pub description : Option Text
  pub created_at : ℕ
  pub deleted_at : Option ℕ
  pub deleted_by : Option ℕ

pub record CalendarEvent : Type 0 where
  pub id : ℕ
  pub organization_id : ℕ
  pub source_leave_log_id : Option ℕ
  pub title : Text
  pub description : Option Text
  pub event_type : CalendarEventType
  pub start_time : ℕ
  pub end_time : ℕ
  pub created_by : ℕ
  pub created_at : ℕ
  pub deleted_at : Option ℕ
  pub deleted_by : Option ℕ

pub record SsoConnection : Type 0 where
  pub id : ℕ
  pub organization_id : ℕ
  pub provider : Option SsoProvider
  pub tenant_id : Option Text
  pub client_id : Text
  pub client_secret : Text
