-- ===== src/Tasks/Tests.antt =====
-- Tasks at the sample database: users 1 (admin), 2 (employee, assigned) and 3 (manager).
use pro_lens_backend.Base.{true, false, none, some, [], ◌∷◌, ◌≡◌, ◌↔◌, refl, ok, err, Ensures}
use pro_lens_backend.Enums.{UserRole}
use pro_lens_backend.Errors.{Error, Violation}
use pro_lens_backend.Model.{Db, User, Project, Task, TaskAssignee, LeaveLog}
use pro_lens_backend.Enums.{LeaveType}
use pro_lens_backend.Model.Samples.{person, project, task, membership, database}
use pro_lens_backend.Repositories.{
  active_project, project_by_id, active_task, task_by_id, is_active_assignee,
}
use pro_lens_backend.Projects.{delete_project}
use pro_lens_backend.Projects.DirectTasks.{delete_project_with_direct_tasks}
use pro_lens_backend.Tasks.{can_write, update_task}
use pro_lens_backend.Tasks.Access.{MayWrite, can_write-MayWrite}
use pro_lens_backend.Tasks.Updates.{UpdatedBy, update_task-Updated, only_project, project_unchecked}
use pro_lens_backend.Tasks.Assignees.{create_assignee}
use pro_lens_backend.Tasks.Leave.{AssignedBy, create_assignee-Assigned}

abbrev employee : User
employee = person 2 UserRole.employee

abbrev assignment : TaskAssignee
assignment = record {
  id = 70;
  organization_id = 1;
  task_id = 30;
  user_id = 2;
  assigned_by = 1;
  assigned_at = 0;
  removed_at = none;
  removed_by = none;
}

abbrev leave : LeaveLog
leave = record {
  id = 80;
  organization_id = 1;
  user_id = 2;
  start_date = 100;
  end_date = 101;
  leave_type = LeaveType.sick;
  reason = none;
  total_half_days = 4;
  created_at = 0;
  deleted_at = none;
  deleted_by = none;
}

abbrev dated : Task
dated = record (task none none) { start_date = some 90; due_date = some 99 }

abbrev db : Db
db = record (database (membership 3 ∷ []) (dated ∷ [])) {
  task_assignees = assignment ∷ [];
  leave_logs = leave ∷ [];
}

can_write-MayWrite_example :
    (can_write employee dated false db ≡ true) ↔ MayWrite employee dated false db
can_write-MayWrite_example = can_write-MayWrite employee dated false db

update_task-Updated_example :
    Ensures
      (UpdatedBy 30 employee (only_project none) db)
      (update_task employee 30 (only_project none) db)
update_task-Updated_example = update_task-Updated employee 30 (only_project none) db

-- The project 99 is deleted and of another organization, and 98 does not exist.
abbrev gone_project : Project
gone_project = record project { id = 99; organization_id = 2; deleted_at = some 1 }

abbrev with_gone : Db
with_gone = record db { projects = gone_project ∷ [] }

project_unchecked_example :
    ((r : Task × Db) × (update_task employee 30 (only_project (some 99)) with_gone ≡ ok r)
      × (r.0.project_id ≡ some 99)
      × (r.0.feature_id ≡ none))
    × (update_task employee 30 (only_project (some 98)) with_gone
        ≡ err (Error.integrity_error Violation.foreign_key))
unfolding active_task task_by_id can_write is_active_assignee project_by_id
project_unchecked_example =
    project_unchecked employee 30 99 98 dated gone_project with_gone refl refl refl refl refl

create_assignee-Assigned_example :
    Ensures
      (AssignedBy (record { task_id = 30; user_id = 3 }) (person 1 UserRole.admin) db)
      (create_assignee 71 5 (record { task_id = 30; user_id = 3 }) (person 1 UserRole.admin) db)
create_assignee-Assigned_example =
    create_assignee-Assigned 71 5 (record { task_id = 30; user_id = 3 }) (person 1 UserRole.admin)
      db

delete_project_with_direct_tasks_example :
    (db' : Db) × (delete_project 5 10
        (person 1 UserRole.admin)
        (database [] (task none (some 10) ∷ []))
      ≡ ok db')
    × (active_project 10 db' ≡ none)
    × (db'.tasks ≡ task none (some 10) ∷ [])
unfolding active_project project_by_id
delete_project_with_direct_tasks_example =
    delete_project_with_direct_tasks 5 10 (person 1 UserRole.admin) project
      (database [] (task none (some 10) ∷ [])) refl refl (refl, tt)
