-- ===== src/Integrity.antt =====
-- What the soft deletions of projects, features and tasks are meant to keep across the services: an
-- active task's feature is active, and an active feature's project is active.
pub mod Tables
pub mod Deletions
pub mod Operations
pub mod TaskOperations
pub mod Reach
mod Tests
use pro_lens_backend.Base.{
  ℕ, Bool, true, Option, none, some, ◌≡◌, ◌&&◌, ◌||◌, ◌==◌, not, is_none, any, All,
}
use pro_lens_backend.Model.{Db, Project, Feature, Task}

abbrev pub is_active_project : ℕ → Project → Bool
is_active_project k p = (p.id == k) && is_none p.deleted_at

abbrev pub is_active_feature : ℕ → Feature → Bool
is_active_feature k f = (f.id == k) && is_none f.deleted_at

-- A soft-deleted feature, or one whose project is there and active.
abbrev pub feature_sound : Db → Feature → Bool
feature_sound db f = not (is_none f.deleted_at) || any (is_active_project f.project_id) db.projects

abbrev pub feature_there : Db → Option ℕ → Bool
feature_there db none = true
feature_there db (some k) = any (is_active_feature k) db.features

-- A soft-deleted task, one without a feature, or one whose feature is there and active.
abbrev pub task_sound : Db → Task → Bool
task_sound db t = not (is_none t.deleted_at) || feature_there db t.feature_id

pub record IsSound (db : Db) : Type 0 where
  pub features_sound : All (λ f. feature_sound db f ≡ true) db.features
  pub tasks_sound : All (λ t. task_sound db t ≡ true) db.tasks
