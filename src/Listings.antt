-- ===== src/Listings.antt =====
-- The listings of time logs, calendar events, comments and attachments: `list_filtered` of
-- app/repositories/time_log.py, calendar_event_repository.py, comment_repository.py and
-- attachment_repository.py, with the services' methods that call them. The rows are those that the
-- session sees, so the policies that hide other organizations' rows stand outside.
mod Own
mod Visible
mod Writers
mod Tests
use pro_lens_backend.Base.{
  ℕ, Bool, true, false, Option, none, some, List, ◌==◌, ◌&&◌, ◌||◌, is_none, same_id, ltb, leb,
  select, sort, take, drop, Result, ok, err, ◌>>=◌,
}
use pro_lens_backend.Errors.{Error}
use pro_lens_backend.Enums.{CalendarEventType}
use pro_lens_backend.Model.{Db, User, Attachment, CalendarEvent, Comment, TimeLog}
use pro_lens_backend.Activities.TimeLogs.{listed_user}

-- app/api/pagination.py
pub record Pagination : Type 0 where
  pub limit : ℕ
  pub offset : ℕ

-- `if wanted is not None: stmt = stmt.where(column == wanted)`, for a column without and with NULLs,
-- and the same with `<=` and `>=`
abbrev pub is_wanted : Option ℕ → ℕ → Bool
is_wanted none x = true
is_wanted (some w) x = x == w

abbrev pub is_wanted_link : Option ℕ → Option ℕ → Bool
is_wanted_link none x = true
is_wanted_link (some w) x = same_id x (some w)

abbrev pub is_at_most : Option ℕ → ℕ → Bool
is_at_most none x = true
is_at_most (some w) x = leb x w

abbrev pub is_at_least : Option ℕ → ℕ → Bool
is_at_least none x = true
is_at_least (some w) x = leb w x

-- `ORDER BY time, id`
abbrev pub time_order : ℕ → ℕ → ℕ → ℕ → Bool
time_order t id u id' = ltb t u || (t == u && leb id id')

-- `stmt.limit(limit).offset(offset)`
abbrev pub page {ℓ} : {A : Type ℓ} → Pagination → List A → List A
page p rows = take p.limit (drop p.offset rows)

pub record TimeLogFilter : Type 0 where
  pub id : Option ℕ
  pub user_id : Option ℕ
  pub task_id : Option ℕ
  pub activity_id : Option ℕ
  pub log_date : Option ℕ
  pub from_date : Option ℕ
  pub to_date : Option ℕ

abbrev pub is_listed_log : TimeLogFilter → Option ℕ → TimeLog → Bool
is_listed_log f user_id l =
    is_none l.deleted_at
    && is_wanted f.id l.id
    && is_wanted user_id l.user_id
    && is_wanted_link f.task_id l.task_id
    && is_wanted_link f.activity_id l.activity_id
    && is_wanted f.log_date l.log_date
    && is_at_least f.from_date l.log_date
    && is_at_most f.to_date l.log_date

abbrev pub log_order : TimeLog → TimeLog → Bool
log_order a b = time_order a.created_at a.id b.created_at b.id

unfoldable pub list_time_logs : User → Pagination → TimeLogFilter → Db → Result (List TimeLog)
unfolding listed_user
list_time_logs caller p f db = do
  user_id ← listed_user caller f.user_id
  ok (page p (sort log_order (select (is_listed_log f user_id) db.time_logs)))

pub record EventFilter : Type 0 where
  pub id : Option ℕ
  pub event_type : Option CalendarEventType
  pub range_start : Option ℕ
  pub range_end : Option ℕ

abbrev event_type_code : CalendarEventType → ℕ
event_type_code CalendarEventType.holiday = 0
event_type_code CalendarEventType.milestone = 1
event_type_code CalendarEventType.leave = 2
event_type_code CalendarEventType.release = 3
event_type_code CalendarEventType.team_event = 4

abbrev pub is_wanted_type : Option CalendarEventType → CalendarEventType → Bool
is_wanted_type none x = true
is_wanted_type (some w) x = event_type_code x == event_type_code w

-- Events that cross a boundary of the range are in.
abbrev pub is_listed_event : EventFilter → CalendarEvent → Bool
is_listed_event f e =
    is_none e.deleted_at
    && is_wanted f.id e.id
    && is_wanted_type f.event_type e.event_type
    && is_at_most f.range_end e.start_time
    && is_at_least f.range_start e.end_time

abbrev pub event_order : CalendarEvent → CalendarEvent → Bool
event_order a b = time_order a.start_time a.id b.start_time b.id

unfoldable pub list_events : Pagination → EventFilter → Db → List CalendarEvent
list_events p f db = page p (sort event_order (select (is_listed_event f) db.calendar_events))

-- `user_id` is the `author_id` of comments and the `uploaded_by` of attachments.
pub record TargetFilter : Type 0 where
  pub id : Option ℕ
  pub project_id : Option ℕ
  pub feature_id : Option ℕ
  pub task_id : Option ℕ
  pub activity_id : Option ℕ
  pub user_id : Option ℕ

abbrev pub is_listed_comment : TargetFilter → Comment → Bool
is_listed_comment f c =
    is_none c.deleted_at
    && is_wanted f.id c.id
    && is_wanted_link f.project_id c.project_id
    && is_wanted_link f.feature_id c.feature_id
    && is_wanted_link f.task_id c.task_id
    && is_wanted f.user_id c.author_id

abbrev pub comment_order : Comment → Comment → Bool
comment_order a b = time_order a.created_at a.id b.created_at b.id

-- `Comment` has no column `activity_id`, which the filter reads.
abbrev pub filter_comments : Option ℕ → List Comment → Result (List Comment)
filter_comments none rows = ok rows
filter_comments (some w) rows = err Error.attribute_error

unfoldable pub list_comments : Pagination → TargetFilter → Db → Result (List Comment)
list_comments p f db =
    filter_comments f.activity_id
      (page p (sort comment_order (select (is_listed_comment f) db.comments)))

abbrev pub is_listed_attachment : TargetFilter → Attachment → Bool
is_listed_attachment f a =
    is_none a.deleted_at
    && is_wanted f.id a.id
    && is_wanted_link f.project_id a.project_id
    && is_wanted_link f.feature_id a.feature_id
    && is_wanted_link f.task_id a.task_id
    && is_wanted_link f.activity_id a.activity_id
    && is_wanted f.user_id a.uploaded_by

abbrev pub attachment_order : Attachment → Attachment → Bool
attachment_order a b = time_order a.created_at a.id b.created_at b.id

unfoldable pub list_attachments : Pagination → TargetFilter → Db → List Attachment
list_attachments p f db =
    page p (sort attachment_order (select (is_listed_attachment f) db.attachments))
