-- ===== src/Members/FeatureMembers.antt =====
-- app/services/feature_member_service.py: who is assigned to a feature and removed from it.
use pro_lens_backend.Base.{
  ℕ, none, some, [], ◌∷◌, ◌++◌, ◌==◌, same_id, Result, ok, ◌>>=◌, ◌>>◌, raise_if, raise_unless,
  or_raise, update_where,
}
use pro_lens_backend.Errors.{Error}
use pro_lens_backend.Enums.{is_active}
use pro_lens_backend.Model.{Db, User, Feature, FeatureMember}
use pro_lens_backend.Repositories.{
  live, by_id, active_project, active_feature, active_user, is_member, is_feature_member,
}
use pro_lens_backend.Projects.{may_manage_project}

pub record FeatureMemberCreate : Type 0 where
  pub feature_id : ℕ
  pub user_id : ℕ

-- `_get_feature`: an active feature of an active project.
unfoldable pub get_feature : ℕ → Db → Result Feature
get_feature feature_id db = do
  feature ← or_raise (active_feature feature_id db) Error.feature_not_found
  project ← or_raise (active_project feature.project_id db) Error.project_not_found
  ok feature

unfoldable pub create_feature_member :
    ℕ → ℕ → User → FeatureMemberCreate → Db → Result (FeatureMember × Db)
unfolding get_feature
create_feature_member new_id now caller payload db = do
  org ← or_raise caller.organization_id Error.must_belong_to_organization
  feature ← get_feature payload.feature_id db
  raise_unless (may_manage_project caller feature.project_id db)
      Error.feature_member_mutation_forbidden
  user ← or_raise (active_user payload.user_id db) Error.user_not_found
  raise_unless (is_active user.status) Error.user_not_found
  raise_unless (same_id user.organization_id caller.organization_id)
      Error.cross_organization_forbidden
  raise_unless (is_member feature.project_id payload.user_id db) Error.project_membership_required
  raise_if (is_feature_member payload.feature_id payload.user_id db)
      Error.feature_member_already_exists
  let member : FeatureMember = record {
    id = new_id;
    organization_id = org;
    feature_id = payload.feature_id;
    user_id = payload.user_id;
    assigned_by = caller.id;
    assigned_at = now;
    removed_at = none;
    removed_by = none;
  }
  ok (member, record db { feature_members = db.feature_members ++ member ∷ [] })

abbrev pub remove_feature_member : ℕ → ℕ → FeatureMember → FeatureMember
remove_feature_member now by m = record m { removed_at = some now; removed_by = some by }

unfoldable pub delete_feature_member : ℕ → ℕ → User → Db → Result Db
unfolding get_feature
delete_feature_member now feature_member_id caller db = do
  member ←
      or_raise
        (live (λ (m : FeatureMember). m.removed_at)
          (by_id (λ (m : FeatureMember). m.id) feature_member_id db.feature_members))
        Error.feature_member_not_found
  feature ← get_feature member.feature_id db
  raise_unless (may_manage_project caller feature.project_id db)
      Error.feature_member_mutation_forbidden
  ok (record db {
    feature_members =
        update_where (λ (m : FeatureMember). m.id == member.id)
          (remove_feature_member now caller.id) db.feature_members;
  })
