-- ===== src/Model/Rows.antt =====
-- The rows of app/models/tenancy.py, user.py, session.py, project.py, task.py and timesheet.py.
use pro_lens_backend.Base.{ℕ, Option, List}
use pro_lens_backend.Config.{Text}
use pro_lens_backend.Enums.{
  UserRole, UserStatus, OrgStatus, ProjectStatus, EntityStatus, PriorityLevel, LeaveType,
  LeavePortion, HalfSlot,
}

pub record Organization : Type 0 where
  pub id : ℕ
  pub name : Text
  pub domain : Text
  pub status : OrgStatus
  pub deleted_at : Option ℕ
  pub deleted_by : Option ℕ

pub record Designation : Type 0 where
  pub id : ℕ
  pub organization_id : ℕ
  pub name : Text
  pub deleted_at : Option ℕ
  pub deleted_by : Option ℕ

pub record User : Type 0 where
  pub id : ℕ
  pub organization_id : Option ℕ
  pub designation_id : Option ℕ
  pub email : Text
  pub password_hash : Option Text
  pub sso_subject_id : Option Text
  pub first_name : Option Text
  pub last_name : Option Text
  pub role : UserRole
  pub status : UserStatus
  pub deleted_at : Option ℕ
  pub deleted_by : Option ℕ

pub record UserSession : Type 0 where
  pub id : ℕ
  pub user_id : ℕ
  pub refresh_token_hash : Text
  pub expires_at : ℕ
  pub revoked_at : Option ℕ
  pub created_at : ℕ

pub record Project : Type 0 where
  pub id : ℕ
  pub organization_id : ℕ
  pub name : Text
  pub description : Option Text
  pub client_name : Option Text
  pub client_contact : Option Text
  pub start_date : Option ℕ
  pub end_date : Option ℕ
  pub status : ProjectStatus
  pub budget : Option ℕ
  pub created_by : ℕ
  pub updated_by : Option ℕ
  pub created_at : ℕ
  pub deleted_at : Option ℕ
  pub deleted_by : Option ℕ

pub record ProjectMember : Type 0 where
  pub id : ℕ
  pub organization_id : ℕ
  pub project_id : ℕ
  pub user_id : ℕ
  pub added_by : ℕ
  pub added_at : ℕ
  pub removed_at : Option ℕ
  pub removed_by : Option ℕ

pub record Feature : Type 0 where
  pub id : ℕ
  pub organization_id : ℕ
  pub project_id : ℕ
  pub name : Text
  pub description : Option Text
  pub status : EntityStatus
  pub created_by : ℕ
  pub updated_by : Option ℕ
  pub created_at : ℕ
  pub deleted_at : Option ℕ
  pub deleted_by : Option ℕ

pub record FeatureMember : Type 0 where
  pub id : ℕ
  pub organization_id : ℕ
  pub feature_id : ℕ
  pub user_id : ℕ
  pub assigned_by : ℕ
  pub assigned_at : ℕ
  pub removed_at : Option ℕ
  pub removed_by : Option ℕ

pub record Task : Type 0 where
  pub id : ℕ
  pub organization_id : ℕ
  pub feature_id : Option ℕ
  pub project_id : Option ℕ
  pub name : Text
  pub description : Option Text
  pub status : EntityStatus
  pub priority : PriorityLevel
  pub estimated_hours : Option ℕ
  pub labels : Option (List Text)
  pub subtasks : Option (List Text)
  pub start_date : Option ℕ
  pub due_date : Option ℕ
  pub created_by : ℕ
  pub updated_by : Option ℕ
  pub created_at : ℕ
  pub deleted_at : Option ℕ
  pub deleted_by : Option ℕ

pub record TaskAssignee : Type 0 where
  pub id : ℕ
  pub organization_id : ℕ
  pub task_id : ℕ
  pub user_id : ℕ
  pub assigned_by : ℕ
  pub assigned_at : ℕ
  pub removed_at : Option ℕ
  pub removed_by : Option ℕ

pub record LeaveLog : Type 0 where
  pub id : ℕ
  pub organization_id : ℕ
  pub user_id : ℕ
  pub start_date : ℕ
  pub end_date : ℕ
  pub leave_type : LeaveType
  pub reason : Option Text
  -- `Numeric(4, 1)`, in halves of a day
  pub total_half_days : ℕ
  pub created_at : ℕ
  pub deleted_at : Option ℕ
  pub deleted_by : Option ℕ

-- An `int4range` with bounds `[)`.
pub record Slot : Type 0 where
  pub lower : ℕ
  pub upper : ℕ

pub record LeaveLogDay : Type 0 where
  pub id : ℕ
  pub leave_log_id : ℕ
  pub user_id : ℕ
  pub organization_id : ℕ
  pub leave_date : ℕ
  pub portion : LeavePortion
  pub half_slot : Option HalfSlot
  pub slot : Slot
  pub deleted_at : Option ℕ
  pub deleted_by : Option ℕ
