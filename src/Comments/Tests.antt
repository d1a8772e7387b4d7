-- ===== src/Comments/Tests.antt =====
-- Comments on small inputs.
use pro_lens_backend.Base.{ℕ, none, some, [], ◌∷◌, ◌≡◌, refl, err, Option}
use pro_lens_backend.Errors.{Error}
use pro_lens_backend.Enums.{UserRole}
use pro_lens_backend.Model.{Db, Comment}
use pro_lens_backend.Model.Samples.{person, database}
use pro_lens_backend.Repositories.{active_project}
use pro_lens_backend.Comments.{CommentCreate, create_comment, update_comment}

abbrev comment : Comment
comment = record {
  id = 1;
  organization_id = 1;
  author_id = 2;
  parent_comment_id = none;
  project_id = some 10;
  feature_id = none;
  task_id = none;
  content = [];
  created_at = 5;
  updated_at = 5;
  deleted_at = none;
  deleted_by = none;
}

abbrev talk : Db
talk = record (database [] []) { comments = comment ∷ [] }

abbrev request : Option ℕ → Option ℕ → CommentCreate
request project_id parent = record {
  project_id = project_id;
  feature_id = none;
  task_id = none;
  activity_id = none;
  parent_comment_id = parent;
  content = [];
}

-- A comment on a project that is there, and a reply to a comment on it.
new_comment :
    create_comment (request (some 10) none) (person 2 UserRole.employee) talk ≡ err Error.type_error
unfolding create_comment active_project
new_comment = refl

reply_to_comment :
    create_comment (request (some 10) (some 1)) (person 2 UserRole.employee) talk
    ≡ err Error.attribute_error
unfolding create_comment active_project
reply_to_comment = refl

no_target :
    create_comment (request (some 11) none) (person 2 UserRole.employee) talk
    ≡ err (Error.app_exception 404)
unfolding create_comment active_project
no_target = refl

-- An admin may delete a comment, but not rewrite it.
not_the_author :
    update_comment 6 1 [] (person 1 UserRole.admin) talk ≡ err Error.insufficient_permission
unfolding update_comment
not_the_author = refl
