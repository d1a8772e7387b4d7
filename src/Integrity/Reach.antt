-- ===== src/Integrity/Reach.antt =====
-- Any sequence of requests on projects, features and tasks, by any callers, as steps of the database.
use pro_lens_backend.Base.{ℕ, ◌≡◌, ok, Ensures-ok}
use pro_lens_backend.Model.{Db, User, Project, Feature, Task}
use pro_lens_backend.Projects.{
  ProjectCreate, ProjectUpdate, create_project, update_project, delete_project,
}
use pro_lens_backend.Projects.Features.{
  FeatureCreate, FeatureUpdate, create_feature, update_feature, delete_feature,
}
use pro_lens_backend.Tasks.{TaskCreate, TaskUpdate, create_task, update_task, delete_task}
use pro_lens_backend.Integrity.{IsSound}
use pro_lens_backend.Integrity.Operations.{
  create_project-Ensures, update_project-Ensures, delete_project-Ensures, create_feature-Ensures,
  update_feature-Ensures, delete_feature-Ensures,
}
use pro_lens_backend.Integrity.TaskOperations.{
  create_task-Ensures, update_task-Ensures, delete_task-Ensures,
}

-- A request that returns, and is committed.
pub data Step (db db' : Db) : Type 0 where
  project_created :
      (id member now : ℕ) (caller : User) (payload : ProjectCreate) (p : Project)
      → create_project id member now caller payload db ≡ ok (p, db')
      → Step db db'
  project_updated :
      (id : ℕ) (payload : ProjectUpdate) (caller : User) (p : Project)
      → update_project id payload caller db ≡ ok (p, db')
      → Step db db'
  project_deleted :
      (now id : ℕ) (caller : User) → delete_project now id caller db ≡ ok db' → Step db db'
  feature_created :
      (id now : ℕ) (caller : User) (payload : FeatureCreate) (f : Feature)
      → create_feature id now caller payload db ≡ ok (f, db')
      → Step db db'
  feature_updated :
      (id : ℕ) (payload : FeatureUpdate) (caller : User) (f : Feature)
      → update_feature id payload caller db ≡ ok (f, db')
      → Step db db'
  feature_deleted :
      (now id : ℕ) (caller : User) → delete_feature now id caller db ≡ ok db' → Step db db'
  task_created :
      (id now : ℕ) (caller : User) (payload : TaskCreate) (t : Task)
      → create_task id now caller payload db ≡ ok (t, db')
      → Step db db'
  task_updated :
      (caller : User) (id : ℕ) (payload : TaskUpdate) (t : Task)
      → update_task caller id payload db ≡ ok (t, db')
      → Step db db'
  task_deleted :
      (now : ℕ) (caller : User) (id : ℕ) → delete_task now caller id db ≡ ok db' → Step db db'

pub data Reach (db : Db) : Db → Type 0 where
  here : Reach db db
  next : {d e : Db} → Reach db d → Step d e → Reach db e

Step-IsSound : {d e : Db} → Step d e → IsSound d → IsSound e
Step-IsSound {d} (project_created id m now c p x h) s =
    Ensures-ok _ _ (create_project-Ensures d s id m now c p) h
Step-IsSound {d} (project_updated id p c x h) s =
    Ensures-ok _ _ (update_project-Ensures d s id p c) h
Step-IsSound {d} (project_deleted now id c h) s =
    Ensures-ok _ _ (delete_project-Ensures d s now id c) h
Step-IsSound {d} (feature_created id now c p x h) s =
    Ensures-ok _ _ (create_feature-Ensures d s id now c p) h
Step-IsSound {d} (feature_updated id p c x h) s =
    Ensures-ok _ _ (update_feature-Ensures d s id p c) h
Step-IsSound {d} (feature_deleted now id c h) s =
    Ensures-ok _ _ (delete_feature-Ensures d s now id c) h
Step-IsSound {d} (task_created id now c p x h) s =
    Ensures-ok _ _ (create_task-Ensures d s id now c p) h
Step-IsSound {d} (task_updated c id p x h) s = Ensures-ok _ _ (update_task-Ensures d s c id p) h
Step-IsSound {d} (task_deleted now c id h) s = Ensures-ok _ _ (delete_task-Ensures d s now c id) h

-- From a sound database, after any sequence of successful requests that make, change and delete
-- projects, features and tasks, every active task's feature is there and active, and every active
-- feature's project is there and active.
pub Reach-IsSound : {d e : Db} → IsSound d → Reach d e → IsSound e
Reach-IsSound s here = s
Reach-IsSound s (next r st) = Step-IsSound st (Reach-IsSound s r)
