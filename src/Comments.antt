-- ===== src/Comments.antt =====
-- app/services/comment_service.py with app/repositories/comment_repository.py, whose `load_target` the
-- attachments use, too.
mod Tests
use pro_lens_backend.Base.{
  ℕ, Bool, true, false, Option, none, some, [], ◌∷◌, ◌++◌, ◌==◌, ◌&&◌, ◌||◌, not, same_id, is_none,
  Result, ok, err, ◌>>=◌, ◌>>◌, raise_if, raise_unless, or_raise, update_where,
}
use pro_lens_backend.Config.{Text}
use pro_lens_backend.Errors.{Error}
use pro_lens_backend.Enums.{is_admin_role, is_super_admin}
use pro_lens_backend.Model.{Db, User, Project, Feature, Task, Activity, Comment}
use pro_lens_backend.Repositories.{live, by_id, active_project, active_feature, active_task}
use pro_lens_backend.Activities.{active_activity}

pub record CommentCreate : Type 0 where
  pub project_id : Option ℕ
  pub feature_id : Option ℕ
  pub task_id : Option ℕ
  pub activity_id : Option ℕ
  pub parent_comment_id : Option ℕ
  pub content : Text

-- The organization of a row that is there.
abbrev organization_of_row {ℓ} : {A : Type ℓ} → (A → ℕ) → Option A → Option ℕ
organization_of_row org none = none
organization_of_row org (some a) = some (org a)

-- `load_target`: the callers read `organization_id` of the target, and nothing else.
unfoldable pub load_target : Option ℕ → Option ℕ → Option ℕ → Option ℕ → Db → Option ℕ
load_target (some p) feature_id task_id activity_id db =
    organization_of_row (λ (x : Project). x.organization_id) (active_project p db)
load_target none (some f) task_id activity_id db =
    organization_of_row (λ (x : Feature). x.organization_id) (active_feature f db)
load_target none none (some t) activity_id db =
    organization_of_row (λ (x : Task). x.organization_id) (active_task t db)
load_target none none none (some a) db =
    organization_of_row (λ (x : Activity). x.organization_id) (active_activity a db)
load_target none none none none db = none

unfoldable pub active_comment : ℕ → Db → Option Comment
active_comment k db =
    live (λ (c : Comment). c.deleted_at) (by_id (λ (c : Comment). c.id) k db.comments)

-- The checks on a parent: the row of a comment has no attribute `activity_id`, which is read if the
-- other targets agree.
unfoldable pub check_parent : CommentCreate → Option ℕ → User → Db → Result (Unit {0})
unfolding active_comment
check_parent payload none caller db = ok tt
check_parent payload (some parent_id) caller db = do
  parent ← or_raise (active_comment parent_id db) (Error.app_exception 404)
  raise_unless (same_id (some parent.organization_id) caller.organization_id)
      (Error.app_exception 404)
  raise_unless
      (same_id parent.project_id payload.project_id
        && same_id parent.feature_id payload.feature_id
        && same_id parent.task_id payload.task_id)
      (Error.app_exception 422)
  err Error.attribute_error

-- `Comment(..., activity_id=...)` is a TypeError, since the table has no such column.
unfoldable pub create_comment : CommentCreate → User → Db → Result (Comment × Db)
unfolding load_target check_parent
create_comment payload caller db = do
  target ←
      or_raise
        (load_target payload.project_id payload.feature_id payload.task_id payload.activity_id db)
        (Error.app_exception 404)
  raise_unless (same_id (some target) caller.organization_id) (Error.app_exception 404)
  check_parent payload payload.parent_comment_id caller db
  err Error.type_error

unfoldable pub get_comment : ℕ → User → Db → Result Comment
unfolding active_comment
get_comment comment_id caller db = do
  comment ← or_raise (active_comment comment_id db) (Error.app_exception 404)
  raise_unless
      (is_super_admin caller.role || same_id (some comment.organization_id) caller.organization_id)
      (Error.app_exception 404)
  ok comment

abbrev pub edit_comment : ℕ → Text → Comment → Comment
edit_comment now content c = record c { content = content; updated_at = now }

unfoldable pub update_comment : ℕ → ℕ → Text → User → Db → Result (Comment × Db)
unfolding get_comment
update_comment now comment_id content caller db = do
  comment ← get_comment comment_id caller db
  raise_unless (comment.author_id == caller.id) Error.insufficient_permission
  ok (
    edit_comment now content comment,
    record db {
      comments =
          update_where (λ (c : Comment). c.id == comment.id) (edit_comment now content) db.comments;
    },
  )

-- The column `updated_at` is set on every update of the row.
abbrev pub soft_delete_comment : ℕ → ℕ → Comment → Comment
soft_delete_comment now by c = record c {
  deleted_at = some now;
  deleted_by = some by;
  updated_at = now;
}

unfoldable pub delete_comment : ℕ → ℕ → User → Db → Result (Comment × Db)
unfolding get_comment
delete_comment now comment_id caller db = do
  comment ← get_comment comment_id caller db
  raise_unless (comment.author_id == caller.id || is_admin_role caller.role)
      Error.insufficient_permission
  ok (
    soft_delete_comment now caller.id comment,
    record db {
      comments =
          update_where (λ (c : Comment). c.id == comment.id) (soft_delete_comment now caller.id)
            db.comments;
    },
  )
