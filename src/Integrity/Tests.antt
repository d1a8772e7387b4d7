-- ===== src/Integrity/Tests.antt =====
-- Soundness at the sample database: its feature is deleted, which has no active task.
use pro_lens_backend.Base.{◌∷◌, [], some, none, refl}
use pro_lens_backend.Enums.{UserRole}
use pro_lens_backend.Repositories.{active_feature, feature_by_id, count_feature_tasks}
use pro_lens_backend.Model.{Db}
use pro_lens_backend.Model.Samples.{person, database, task, feature}
use pro_lens_backend.Projects.{soft_delete_feature}
use pro_lens_backend.Projects.Features.{delete_feature}
use pro_lens_backend.Integrity.{IsSound}
use pro_lens_backend.Integrity.Reach.{Reach, here, next, feature_deleted, Reach-IsSound}

abbrev start : Db
start = database [] (task none (some 10) ∷ [])

abbrev after : Db
after = record start { features = soft_delete_feature 5 1 feature ∷ [] }

start-IsSound : IsSound start
start-IsSound = record { features_sound = (refl, tt); tasks_sound = (refl, tt) }

deleted : Reach start after
unfolding delete_feature active_feature feature_by_id count_feature_tasks
deleted = next here (feature_deleted 5 20 (person 1 UserRole.admin) refl)

Reach-IsSound_example : IsSound after
Reach-IsSound_example = Reach-IsSound start-IsSound deleted
