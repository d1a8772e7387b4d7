-- ===== src/Model/Samples.antt =====
-- A small database for the tests: one project with one feature, three users, and given tasks and
-- project members.
use pro_lens_backend.Base.{ℕ, Option, none, some, List, [], ◌∷◌}
use pro_lens_backend.Enums.{UserRole, UserStatus, ProjectStatus, EntityStatus, PriorityLevel}
use pro_lens_backend.Model.Rows.{User, Project, ProjectMember, Feature, Task}
use pro_lens_backend.Model.Tables.{Db}

abbrev pub person : ℕ → UserRole → User
person id role = record {
  id = id;
  organization_id = some 1;
  designation_id = some 1;
  email = [];
  password_hash = none;
  sso_subject_id = none;
  first_name = none;
  last_name = none;
  role = role;
  status = UserStatus.active;
  deleted_at = none;
  deleted_by = none;
}

abbrev pub project : Project
project = record {
  id = 10;
  organization_id = 1;
  name = [];
  description = none;
  client_name = none;
  client_contact = none;
  start_date = none;
  end_date = none;
  status = ProjectStatus.active;
  budget = none;
  created_by = 1;
  updated_by = none;
  created_at = 0;
  deleted_at = none;
  deleted_by = none;
}

abbrev pub feature : Feature
feature = record {
  id = 20;
  organization_id = 1;
  project_id = 10;
  name = [];
  description = none;
  status = EntityStatus.to_do;
  created_by = 1;
  updated_by = none;
  created_at = 0;
  deleted_at = none;
  deleted_by = none;
}

abbrev pub task : Option ℕ → Option ℕ → Task
task feature_id project_id = record {
  id = 30;
  organization_id = 1;
  feature_id = feature_id;
  project_id = project_id;
  name = [];
  description = none;
  status = EntityStatus.to_do;
  priority = PriorityLevel.medium;
  estimated_hours = none;
  labels = some [];
  subtasks = some [];
  start_date = none;
  due_date = none;
  created_by = 1;
  updated_by = none;
  created_at = 0;
  deleted_at = none;
  deleted_by = none;
}

-- A membership of the project.
abbrev pub membership : ℕ → ProjectMember
membership user_id = record {
  id = 40;
  organization_id = 1;
  project_id = 10;
  user_id = user_id;
  added_by = 1;
  added_at = 0;
  removed_at = none;
  removed_by = none;
}

abbrev pub database : List ProjectMember → List Task → Db
database members tasks = record {
  organizations = [];
  designations = [];
  users = person 1 UserRole.admin ∷ person 2 UserRole.employee ∷ person 3 UserRole.manager ∷ [];
  sessions = [];
  projects = project ∷ [];
  project_members = members;
  features = feature ∷ [];
  feature_members = [];
  tasks = tasks;
  task_assignees = [];
  leave_logs = [];
  leave_days = [];
  activities = [];
  activity_assignees = [];
  time_logs = [];
  calendar_events = [];
  comments = [];
  attachments = [];
  discussion_reads = [];
  sso_connections = [];
  outbox = [];
}
