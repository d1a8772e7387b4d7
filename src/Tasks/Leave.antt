-- ===== src/Tasks/Leave.antt =====
-- Assigning a task: leave, and assignments that are there already.
use pro_lens_backend.Base.{
  ℕ, ◌≤◌, true, false, Option, none, some, [], ◌∷◌, ◌++◌, ◌≡◌, refl, arith, ◌==◌, is_none, All,
  All-map_of, any-false, All-intro, Ensures, returns, Ensures-bind, Ensures-or_raise,
  Ensures-raise_if, Ensures-raise_unless,
}
use pro_lens_backend.Model.{Db, User, Task, TaskAssignee, LeaveLog}
use pro_lens_backend.Repositories.{active_task, is_active_assignee}
use pro_lens_backend.Tasks.{can_manage}
use pro_lens_backend.Tasks.Assignees.{
  TaskAssigneeCreate, overlaps_window, has_conflicting_leave, get_assignable_user, lacks_membership,
  create_assignee,
}

-- The days that a task is worked on, as far as its dates tell.
abbrev pub InWindow : Option ℕ → Option ℕ → ℕ → Type 0
InWindow none none day = ⊥
InWindow (some a) none day = day ≡ a
InWindow none (some b) day = day ≡ b
InWindow (some a) (some b) day = (a ≤ day) × (day ≤ b)

-- No active leave of the user has a day among those of the task.
abbrev pub FreeFrom : ℕ → Option ℕ → Option ℕ → LeaveLog → Type 0
FreeFrom user_id start due l =
    (day : ℕ)
    → (l.user_id == user_id) ≡ true
    → is_none l.deleted_at ≡ true
    → l.start_date ≤ day
    → day ≤ l.end_date
    → InWindow start due day
    → ⊥

no_conflict-FreeFrom :
    (user_id : ℕ) (start due : Option ℕ) (db : Db)
    → has_conflicting_leave user_id start due db ≡ false
    → All (FreeFrom user_id start due) db.leave_logs
unfolding has_conflicting_leave
no_conflict-FreeFrom u none none db h = All-intro db.leave_logs (λ l day own active f t w. w)
no_conflict-FreeFrom u (some a) none db h =
    All-map_of _ _ db.leave_logs (λ l miss day own active f t w. ground arith)
      (any-false (overlaps_window u a a) db.leave_logs h)
no_conflict-FreeFrom u none (some b) db h =
    All-map_of _ _ db.leave_logs (λ l miss day own active f t w. ground arith)
      (any-false (overlaps_window u b b) db.leave_logs h)
no_conflict-FreeFrom u (some a) (some b) db h =
    All-map_of _ _ db.leave_logs (λ l miss day own active f t w. ground arith)
      (any-false (overlaps_window u a b) db.leave_logs h)

pub record Assigned (task_id : ℕ) (caller : User) (db : Db) (a : TaskAssignee) (db' : Db)
    : Type 0 where
  pub task : Task
  pub found : active_task task_id db ≡ some task
  pub allowed : can_manage caller task db ≡ true
  pub of_task : a.task_id ≡ task.id
  pub member : lacks_membership task.feature_id a.user_id db ≡ false
  pub rows : db'.task_assignees ≡ db.task_assignees ++ a ∷ []
  pub new : is_active_assignee task.id a.user_id db ≡ false
  pub free : All (FreeFrom a.user_id task.start_date task.due_date) db.leave_logs

abbrev pub AssignedBy : TaskAssigneeCreate → User → Db → TaskAssignee × Db → Type 0
AssignedBy payload caller db r = Assigned payload.task_id caller db r.0 r.1

-- Whenever an assignment returns, the task was found active and the caller may manage it; the user was
-- not an active assignee of it and, if its feature can be loaded, is a member of the feature's
-- project; no day of an active leave of the user is a day of the task; and the assignment is the one
-- new row of the table.
pub create_assignee-Assigned :
    (new_id now : ℕ) (payload : TaskAssigneeCreate) (caller : User) (db : Db)
    → Ensures (AssignedBy payload caller db) (create_assignee new_id now payload caller db)
unfolding create_assignee
create_assignee-Assigned new_id now payload caller db =
    Ensures-or_raise (AssignedBy payload caller db) caller.organization_id _ _ λ org found_org.
      Ensures-or_raise (AssignedBy payload caller db) (active_task payload.task_id db) _ _
        λ task found.
          Ensures-raise_unless (AssignedBy payload caller db) (can_manage caller task db) _ _
            λ allowed.
              Ensures-bind (AssignedBy payload caller db)
                (get_assignable_user payload.user_id caller db) _
                λ user known.
                  Ensures-raise_if (AssignedBy payload caller db)
                    (lacks_membership task.feature_id user.id db) _ _
                    λ member.
                      Ensures-raise_if (AssignedBy payload caller db)
                        (is_active_assignee task.id user.id db) _ _
                        λ new.
                          Ensures-raise_if (AssignedBy payload caller db)
                            (has_conflicting_leave user.id task.start_date task.due_date db) _ _
                            λ free. returns (record {
                              task = task;
                              found = found;
                              allowed = allowed;
                              of_task = refl;
                              member = member;
                              rows = refl;
                              new = new;
                              free =
                                  no_conflict-FreeFrom user.id task.start_date task.due_date db
                                    free;
                            })
