-- ===== src/Integrity/Operations.antt =====
-- The operations of the services on projects, features and tasks, and the soundness of the database.
use pro_lens_backend.Base.{
  ℕ, false, ◌≡◌, refl, arith, ◌==◌, ltb, Ensures, returns, Ensures-or_raise, Ensures-raise_if,
  Ensures-raise_unless,
}
use pro_lens_backend.Model.{Db, User, Project}
use pro_lens_backend.Repositories.{
  active_project, project_by_id, active_feature, count_feature_tasks, count_project_tasks,
}
use pro_lens_backend.Repositories.Lookups.{live-any, live-by_id}
use pro_lens_backend.Projects.{
  ProjectCreate, ProjectUpdate, create_project, update_project, delete_project,
  apply_project_update, may_manage_project, set_or, dates_reversed,
}
use pro_lens_backend.Projects.Features.{
  FeatureCreate, FeatureUpdate, create_feature, update_feature, delete_feature,
  apply_feature_update,
}
use pro_lens_backend.Integrity.{IsSound}
use pro_lens_backend.Integrity.Tables.{
  append_project-IsSound, update_project-IsSound, append_feature-IsSound, update_feature-IsSound,
}
use pro_lens_backend.Integrity.Deletions.{delete_feature-IsSound, delete_project-IsSound}

none_counted : (n : ℕ) → ltb 0 n ≡ false → n ≡ 0
none_counted n h = ground arith

module _ (db : Db) (s : IsSound db) where
  pub delete_feature-Ensures :
      (now id : ℕ) (caller : User) → Ensures IsSound (delete_feature now id caller db)
  unfolding delete_feature
  delete_feature-Ensures now id caller =
      Ensures-or_raise IsSound (active_feature id db) _ _ λ feature found.
        Ensures-raise_unless IsSound (may_manage_project caller feature.project_id db) _ _
          λ allowed.
            Ensures-raise_if IsSound (ltb 0 (count_feature_tasks feature.id db)) _ _ λ idle.
              returns (
                delete_feature-IsSound db s now caller.id feature.id
                  (none_counted (count_feature_tasks feature.id db) idle))

  pub delete_project-Ensures :
      (now id : ℕ) (caller : User) → Ensures IsSound (delete_project now id caller db)
  unfolding delete_project active_project project_by_id
  delete_project-Ensures now id caller =
      Ensures-or_raise IsSound (active_project id db) _ _ λ project found.
        Ensures-raise_unless IsSound (may_manage_project caller project.id db) _ _ λ allowed.
          Ensures-raise_if IsSound (ltb 0 (count_project_tasks id db)) _ _ λ idle. returns (
            rw (live-by_id (λ (p : Project). p.id) (λ p. p.deleted_at) id db.projects found).0 (
              delete_project-IsSound db s now caller.id id
                (none_counted (count_project_tasks id db) idle)))

  pub create_project-Ensures :
      (project_id member_id now : ℕ) (caller : User) (payload : ProjectCreate)
      → Ensures (λ r. IsSound r.1) (create_project project_id member_id now caller payload db)
  unfolding create_project
  create_project-Ensures project_id member_id now caller payload =
      Ensures-or_raise (λ r. IsSound r.1) caller.organization_id _ _
        λ org found. returns (
          let t = append_project-IsSound db s _ in
          record { features_sound = t.features_sound; tasks_sound = t.tasks_sound })

  pub update_project-Ensures :
      (id : ℕ) (payload : ProjectUpdate) (caller : User)
      → Ensures (λ r. IsSound r.1) (update_project id payload caller db)
  unfolding update_project
  update_project-Ensures id payload caller =
      Ensures-or_raise (λ r. IsSound r.1) (active_project id db) _ _
        λ project found.
          Ensures-raise_unless (λ r. IsSound r.1) (may_manage_project caller project.id db) _ _
            λ allowed.
              Ensures-raise_if (λ r. IsSound r.1)
                (dates_reversed (set_or payload.start_date project.start_date)
                  (set_or payload.end_date project.end_date))
                _ _
                λ dated. returns (
                  update_project-IsSound db s (λ p. p.id == project.id)
                    (apply_project_update payload caller) (λ x k. refl))

  pub create_feature-Ensures :
      (id now : ℕ) (caller : User) (payload : FeatureCreate)
      → Ensures (λ r. IsSound r.1) (create_feature id now caller payload db)
  unfolding create_feature active_project project_by_id
  create_feature-Ensures id now caller payload =
      Ensures-or_raise (λ r. IsSound r.1) caller.organization_id _ _
        λ org found_org.
          Ensures-or_raise (λ r. IsSound r.1) (active_project payload.project_id db) _ _
            λ project found.
              Ensures-raise_unless (λ r. IsSound r.1) (may_manage_project caller project.id db) _ _
                λ allowed. returns (
                  append_feature-IsSound db s _ (
                    rw
                      (live-by_id (λ (p : Project). p.id) (λ p. p.deleted_at) payload.project_id
                        db.projects found).0
                      (live-any (λ (p : Project). p.id) (λ p. p.deleted_at) payload.project_id
                        db.projects found)))

  pub update_feature-Ensures :
      (id : ℕ) (payload : FeatureUpdate) (caller : User)
      → Ensures (λ r. IsSound r.1) (update_feature id payload caller db)
  unfolding update_feature
  update_feature-Ensures id payload caller =
      Ensures-or_raise (λ r. IsSound r.1) (active_feature id db) _ _
        λ feature found.
          Ensures-raise_unless (λ r. IsSound r.1) (may_manage_project caller feature.project_id db)
            _ _
            λ allowed. returns (
              update_feature-IsSound db s (λ f. f.id == feature.id)
                (apply_feature_update payload caller) (λ x k. refl) (λ x. refl))
