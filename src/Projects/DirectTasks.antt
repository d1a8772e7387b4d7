-- ===== src/Projects/DirectTasks.antt =====
-- The deletion of a project that has tasks of its own, outside features.
use pro_lens_backend.Base.{
  ℕ, true, false, Option, none, some, List, [], ◌∷◌, ◌≡◌, refl, arith, ◌&&◌, is_none, same_id, any,
  count, All, ok, ◌==◌, update_where, find-update_where,
}
use pro_lens_backend.Model.{Db, User, Project, Feature, Task}
use pro_lens_backend.Repositories.{
  live, by_id, project_by_id, active_project, count_project_tasks, in_active_feature_of,
  is_active_feature_of,
}
use pro_lens_backend.Repositories.Lookups.{live-by_id, live-some}
use pro_lens_backend.Projects.{
  may_manage_project, delete_project, soft_delete_project, soft_delete_feature,
}

unlinked :
    (project_id : ℕ) (o : Option ℕ) (fs : List Feature)
    → is_none o ≡ true
    → any (λ f. is_active_feature_of project_id f && same_id o (some f.id)) fs ≡ false
unlinked project_id none [] h = refl
unlinked project_id none (f ∷ fs) h = ground (arith, unlinked project_id none fs h)
unlinked project_id (some k) fs h = cc

-- Tasks without a feature are never counted.
none_counted :
    (project_id : ℕ) (db : Db) (tasks : List Task)
    → All (λ t. is_none t.feature_id ≡ true) tasks
    → count (in_active_feature_of project_id db) tasks ≡ 0
none_counted project_id db [] h = refl
none_counted project_id db (t ∷ ts) h =
    rw (unlinked project_id t.feature_id db.features h.0) (none_counted project_id db ts h.1)

-- The row of a project that is deleted is no active one.
deleted_row :
    (now by project_id : ℕ) (project : Project) (rows : List Project)
    → live (λ (p : Project). p.deleted_at) (by_id (λ (p : Project). p.id) project_id rows)
      ≡ some project
    → live
        (λ (p : Project). p.deleted_at)
        (by_id
          (λ (p : Project). p.id)
          project_id
          (update_where (λ (p : Project). p.id == project.id) (soft_delete_project now by) rows))
      ≡ none
deleted_row now by project_id project rows found =
    let key =
      (live-by_id (λ (p : Project). p.id) (λ (p : Project). p.deleted_at) project_id rows
        found).0 in
    let row =
      (live-some (λ (p : Project). p.id) (λ (p : Project). p.deleted_at)
        (by_id (λ (p : Project). p.id) project_id rows) found).0 in
    let again =
      find-update_where (λ (p : Project). p.id == project_id) (soft_delete_project now by)
        (λ p. refl) rows row in
    rw (key, again) refl

abbrev without_project : ℕ → ℕ → ℕ → Project → Db → Db
without_project now by project_id project db = record db {
  features =
      update_where (is_active_feature_of project_id) (soft_delete_feature now by) db.features;
  projects =
      update_where (λ (p : Project). p.id == project.id) (soft_delete_project now by) db.projects;
}

deletes :
    (now project_id : ℕ) (caller : User) (project : Project) (db : Db)
    → active_project project_id db ≡ some project
    → may_manage_project caller project.id db ≡ true
    → All (λ t. is_none t.feature_id ≡ true) db.tasks
    → delete_project now project_id caller db
      ≡ ok (without_project now caller.id project_id project db)
unfolding delete_project count_project_tasks
deletes now project_id caller project db found allowed direct =
    simp (found, allowed, none_counted project_id db db.tasks direct) refl

-- Tasks that stand in a project without a feature do not keep it from being deleted: if no task has a
-- feature, a caller who may manage an active project deletes it, so that it is no active project any
-- more, and every task stays as it is, those of the deleted project included.
pub delete_project_with_direct_tasks :
    (now project_id : ℕ) (caller : User) (project : Project) (db : Db)
    → active_project project_id db ≡ some project
    → may_manage_project caller project.id db ≡ true
    → All (λ t. is_none t.feature_id ≡ true) db.tasks
    → (db' : Db) × (delete_project now project_id caller db ≡ ok db')
      × (active_project project_id db' ≡ none)
      × (db'.tasks ≡ db.tasks)
unfolding active_project project_by_id
delete_project_with_direct_tasks now project_id caller project db found allowed direct = (
  without_project now caller.id project_id project db,
  deletes now project_id caller project db found allowed direct,
  deleted_row now caller.id project_id project db.projects found,
  refl,
)
