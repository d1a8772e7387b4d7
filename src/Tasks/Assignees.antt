-- ===== src/Tasks/Assignees.antt =====
-- app/services/task_assignee.py, with the leave query of
-- app/repositories/task_assignee_repository.py.
use pro_lens_backend.Base.{
  ℕ, Bool, false, Option, none, some, [], ◌∷◌, ◌++◌, ◌==◌, ◌&&◌, not, is_none, leb, any, same_id,
  Result, ok, ◌>>=◌, ◌>>◌, raise_if, raise_unless, or_raise, update_where,
}
use pro_lens_backend.Errors.{Error}
use pro_lens_backend.Enums.{is_active}
use pro_lens_backend.Model.{Db, User, Feature, TaskAssignee, LeaveLog}
use pro_lens_backend.Repositories.{
  live, by_id, active_user, active_task, task_by_id, feature_by_id, is_member, is_active_assignee,
}
use pro_lens_backend.Tasks.{can_manage}

pub record TaskAssigneeCreate : Type 0 where
  pub task_id : ℕ
  pub user_id : ℕ

abbrev pub overlaps_window : ℕ → ℕ → ℕ → LeaveLog → Bool
overlaps_window user_id window_start window_end l =
    (l.user_id == user_id)
    && is_none l.deleted_at
    && leb l.start_date window_end
    && leb window_start l.end_date

-- `get_conflicting_leave(...) is not None`: one known bound makes a window of that day.
unfoldable pub has_conflicting_leave : ℕ → Option ℕ → Option ℕ → Db → Bool
has_conflicting_leave user_id none none db = false
has_conflicting_leave user_id (some a) none db = any (overlaps_window user_id a a) db.leave_logs
has_conflicting_leave user_id none (some b) db = any (overlaps_window user_id b b) db.leave_logs
has_conflicting_leave user_id (some a) (some b) db = any (overlaps_window user_id a b) db.leave_logs

-- `_get_assignable_user`
unfoldable pub get_assignable_user : ℕ → User → Db → Result User
get_assignable_user user_id caller db = do
  user ← or_raise (active_user user_id db) Error.user_not_found
  raise_unless (is_active user.status) Error.user_not_found
  raise_unless (same_id user.organization_id caller.organization_id)
      Error.cross_organization_forbidden
  ok user

-- A task with a feature that can be loaded wants a member of the feature's project.
abbrev pub outside_project : Option Feature → ℕ → Db → Bool
outside_project none user_id db = false
outside_project (some f) user_id db = not (is_member f.project_id user_id db)

abbrev pub lacks_membership : Option ℕ → ℕ → Db → Bool
lacks_membership none user_id db = false
lacks_membership (some f) user_id db = outside_project (feature_by_id f db) user_id db

-- The unique index on active (task, user) cannot fail here, after the query for an assignment; a
-- request that commits in between makes the insertion end in the same error.
unfoldable pub create_assignee : ℕ → ℕ → TaskAssigneeCreate → User → Db → Result (TaskAssignee × Db)
unfolding get_assignable_user
create_assignee new_id now payload caller db = do
  org ← or_raise caller.organization_id Error.must_belong_to_organization
  task ← or_raise (active_task payload.task_id db) Error.task_not_found
  raise_unless (can_manage caller task db) Error.insufficient_permission
  user ← get_assignable_user payload.user_id caller db
  raise_if (lacks_membership task.feature_id user.id db) Error.project_membership_required
  raise_if (is_active_assignee task.id user.id db) (Error.app_exception 409)
  raise_if (has_conflicting_leave user.id task.start_date task.due_date db) Error.employee_on_leave
  let assignee : TaskAssignee = record {
    id = new_id;
    organization_id = org;
    task_id = task.id;
    user_id = user.id;
    assigned_by = caller.id;
    assigned_at = now;
    removed_at = none;
    removed_by = none;
  }
  ok (assignee, record db { task_assignees = db.task_assignees ++ assignee ∷ [] })

abbrev pub remove_assignee : ℕ → ℕ → TaskAssignee → TaskAssignee
remove_assignee now by a = record a { removed_at = some now; removed_by = some by }

-- The task is found even if it is soft-deleted.
unfoldable pub delete_assignee : ℕ → ℕ → User → Db → Result Db
delete_assignee now assignee_id caller db = do
  assignee ←
      or_raise
        (live (λ (a : TaskAssignee). a.removed_at)
          (by_id (λ (a : TaskAssignee). a.id) assignee_id db.task_assignees))
        (Error.app_exception 404)
  task ← or_raise (task_by_id assignee.task_id db) Error.task_not_found
  raise_unless (can_manage caller task db) Error.insufficient_permission
  ok (record db {
    task_assignees =
        update_where (λ (a : TaskAssignee). a.id == assignee.id) (remove_assignee now caller.id)
          db.task_assignees;
  })
