-- ===== src/Model/Tables.antt =====
-- The database: one list of rows for each table that the modelled services use.
use pro_lens_backend.Base.{List}
use pro_lens_backend.Model.Rows.{
  Organization, Designation, User, UserSession, Project, ProjectMember, Feature, FeatureMember,
  Task, TaskAssignee, LeaveLog, LeaveLogDay,
}
use pro_lens_backend.Model.Activities.{
  Activity, ActivityAssignee, TimeLog, CalendarEvent, SsoConnection,
}
use pro_lens_backend.Model.Collaboration.{Comment, Attachment, ProjectDiscussionRead}
use pro_lens_backend.Outbox.{EmailOutbox}

pub record Db : Type 0 where
  pub organizations : List Organization
  pub designations : List Designation
  pub users : List User
  pub sessions : List UserSession
  pub projects : List Project
  pub project_members : List ProjectMember
  pub features : List Feature
  pub feature_members : List FeatureMember
  pub tasks : List Task
  pub task_assignees : List TaskAssignee
  pub leave_logs : List LeaveLog
  pub leave_days : List LeaveLogDay
  pub activities : List Activity
  pub activity_assignees : List ActivityAssignee
  pub time_logs : List TimeLog
  pub calendar_events : List CalendarEvent
  pub comments : List Comment
  pub attachments : List Attachment
  pub discussion_reads : List ProjectDiscussionRead
  pub sso_connections : List SsoConnection
  pub outbox : List EmailOutbox
