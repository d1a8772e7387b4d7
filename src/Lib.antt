-- ===== src/Lib.antt =====
-- The backend of ProLens: a FastAPI service over PostgreSQL for organizations that plan projects. A route
-- authenticates the caller, calls one method of a service and commits; a service checks who may do what,
-- reads and writes rows through repositories, and raises an exception to refuse; emails are rows of an
-- outbox, written in the transaction of the change they tell of, which a worker process sends later.
--
-- The model follows that layout. `Model` has a record for each table (app/models), and `Model.Db` the
-- lists of rows. A service method is a function from its arguments and a `Db` to a `Result`: the value
-- and the new database, or the exception of app/core/exception.py; an exception means that the request
-- rolls back, and where the code commits nevertheless the function returns the database with it. What
-- the code takes from elsewhere is an argument: ids of new rows and the clock, bcrypt, hashes, tokens and
-- the texts of emails. A query with WHERE is `find`, `any`, `count` or `select` on a list of rows; an
-- update of a loaded object is `update_where` on its primary key. The rows of a `Db` are those that the
-- row-level security of the caller's session shows.
--
-- - Base: lists, results, sorting, keys, dicts and texts that the other files share.
-- - Errors, Enums, Config: app/core/exception.py with the statuses of app/core/exception_handlers.py,
--   app/models/enums.py, and the settings of app/core/config.py.
-- - Outbox: app/models/outbox.py, app/services/outbox_service.py, app/repositories/outbox_repository.py;
--   Outbox/Worker: `process_batch` of app/worker.py, in which sending and each commit may fail;
--   Outbox/Outcomes: what that does to each row. Steps of requests and of several workers interleave in
--   Outbox/Reach.
-- - RateLimit: app/core/rate_limit.py; the history of its calls stands in RateLimit/Events.
-- - Repositories: the look-ups of app/repositories.
-- - Projects, Projects/Features, Tasks, Tasks/Assignees, Members, Members/FeatureMembers: the services
--   project_service.py, feature_service.py, task_service.py, task_assignee.py,
--   project_member_service.py and feature_member_service.py of app/services. Integrity is about the
--   rows that their soft deletions leave.
-- - Users: app/services/user_service.py. Auth: app/services/auth_service.py and
--   app/repositories/session_repository.py; Auth/Route: the login route of app/api/routes/auth.py, which
--   asks the limiter.
-- - Realtime: which sockets app/core/realtime.py keeps.
-- - Leave: app/services/leave_log_service.py, app/schemas/leave_log.py and the route that creates a leave
--   (app/api/routes/leave_logs.py); Leave/Updates: changing and deleting. The clock is the wall clock of
--   the application's time zone.
-- - Discussion: app/services/discussion_service.py and app/repositories/discussion_repository.py, with
--   Discussion/Messages (what a message shows) and Discussion/Cursors. Comments:
--   app/services/comment_service.py. Attachments: app/services/attachment_service.py, with the object
--   store as a parameter; Attachments/Objects and Attachments/Reach: the store beside the rows.
-- - Activities, Activities/TimeLogs, Calendar: activity.py, activity_assignee.py, time_log.py and
--   calendar_event_service.py of app/services.
-- - Listings: `list_filtered` of the repositories of time logs, calendar events, comments and
--   attachments, with the services' methods that call them; Listings/Visible: those of projects, features
--   and tasks; Listings/Own: what an employee sees.
-- - Organizations, Organizations/Designations: organization_service.py and designation_service.py of
--   app/services, with `assert_same_organization` of app/api/deps.py.
-- - Sso, Sso/Tokens, Sso/Connections: sso_service.py and sso_connection_services.py of app/services, with
--   app/core/sso_clients.py and the checks of app/core/azure_ad.py; what the identity providers and PyJWT
--   answer is a parameter.
--
-- Bounds and fuel. Numbers are unbounded, as Python's are; times are microseconds and dates are days.
-- Loops are recursions on lists, but for the eviction loop of `connect`, whose fuel is the number of the
-- user's sockets: each round removes one.
--
-- Not modelled: the part of `update_leave_log` after the read of a field that the schema lacks, the
-- filtered listings of other tables, most of the schemas' validation, the JSON of replies and events,
-- cookies, the authentication of a request and the row-level security, the polling loop of the worker,
-- the addresses that are signed or sent to browsers (object store, authorization pages), the metrics
-- of organizations, app/core/google_client.py, reporting tables, the seed script and migrations. The
-- check constraints, unique indexes and foreign keys stand where a service can meet them. Two requests
-- that run at once are modelled only for the outbox; elsewhere a request is one step.
pub mod Base
pub mod Errors
pub mod Enums
pub mod Config
pub mod Outbox
pub mod RateLimit
pub mod Model
pub mod Repositories
pub mod Projects
pub mod Tasks
pub mod Members
pub mod Users
pub mod Auth
pub mod Realtime
pub mod Leave
pub mod Discussion
pub mod Activities
pub mod Calendar
pub mod Listings
pub mod Comments
pub mod Attachments
pub mod Organizations
pub mod Sso
pub mod Integrity
