-- ===== src/Projects/Features.antt =====
-- app/services/feature_service.py: features of a project.
use pro_lens_backend.Base.{
  ℕ, Option, none, some, [], ◌∷◌, ◌++◌, ◌==◌, ltb, Result, ok, ◌>>=◌, ◌>>◌, raise_if, raise_unless,
  or_raise, update_where,
}
use pro_lens_backend.Config.{Text}
use pro_lens_backend.Errors.{Error}
use pro_lens_backend.Enums.{EntityStatus}
use pro_lens_backend.Model.{Db, User, Feature}
use pro_lens_backend.Repositories.{active_project, active_feature, count_feature_tasks}
use pro_lens_backend.Projects.{set_or, may_manage_project, soft_delete_feature}

pub record FeatureCreate : Type 0 where
  pub project_id : ℕ
  pub name : Text
  pub description : Option Text

pub record FeatureUpdate : Type 0 where
  pub name : Option Text
  pub description : Option (Option Text)
  pub status : Option EntityStatus

unfoldable pub create_feature : ℕ → ℕ → User → FeatureCreate → Db → Result (Feature × Db)
create_feature new_id now caller payload db = do
  org ← or_raise caller.organization_id Error.must_belong_to_organization
  project ← or_raise (active_project payload.project_id db) Error.project_not_found
  raise_unless (may_manage_project caller project.id db) Error.feature_mutation_forbidden
  let feature : Feature = record {
    id = new_id;
    organization_id = org;
    project_id = project.id;
    name = payload.name;
    description = payload.description;
    status = EntityStatus.to_do;
    created_by = caller.id;
    updated_by = none;
    created_at = now;
    deleted_at = none;
    deleted_by = none;
  }
  ok (feature, record db { features = db.features ++ feature ∷ [] })

abbrev pub apply_feature_update : FeatureUpdate → User → Feature → Feature
apply_feature_update u caller f = record f {
  name = set_or u.name f.name;
  description = set_or u.description f.description;
  status = set_or u.status f.status;
  updated_by = some caller.id;
}

unfoldable pub update_feature : ℕ → FeatureUpdate → User → Db → Result (Feature × Db)
update_feature feature_id payload caller db = do
  feature ← or_raise (active_feature feature_id db) Error.feature_not_found
  raise_unless (may_manage_project caller feature.project_id db) Error.feature_mutation_forbidden
  ok (
    apply_feature_update payload caller feature,
    record db {
      features =
          update_where (λ (f : Feature). f.id == feature.id) (apply_feature_update payload caller)
            db.features;
    },
  )

-- Refused while the feature has an active task.
unfoldable pub delete_feature : ℕ → ℕ → User → Db → Result Db
delete_feature now feature_id caller db = do
  feature ← or_raise (active_feature feature_id db) Error.feature_not_found
  raise_unless (may_manage_project caller feature.project_id db) Error.feature_mutation_forbidden
  raise_if (ltb 0 (count_feature_tasks feature.id db)) (Error.app_exception 409)
  ok (record db {
    features =
        update_where (λ (f : Feature). f.id == feature.id) (soft_delete_feature now caller.id)
          db.features;
  })
