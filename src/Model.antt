-- ===== src/Model.antt =====
-- The tables of app/models as records, and the database as the requests see it. The rows of a `Db`
-- are those that the row-level security of the session lets through; ids are numbers, dates count
-- days, times are microseconds, and sums of money and hours are hundredths.
mod Rows
mod Activities
mod Collaboration
mod Tables
pub mod Samples
pub use Rows.{
  Organization, Designation, User, UserSession, Project, ProjectMember, Feature, FeatureMember,
  Task, TaskAssignee, LeaveLog, LeaveLogDay, Slot,
}
pub use Activities.{Activity, ActivityAssignee, TimeLog, CalendarEvent, SsoConnection}
pub use Collaboration.{Comment, Attachment, ProjectDiscussionRead}
pub use Tables.{Db}
