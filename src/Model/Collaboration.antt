-- ===== src/Model/Collaboration.antt =====
-- The rows of app/models/collaboration.py.
use pro_lens_backend.Base.{ℕ, Option}
use pro_lens_backend.Config.{Text}

pub record Comment : Type 0 where
  pub id : ℕ
  pub organization_id : ℕ
  pub author_id : ℕ
  pub parent_comment_id : Option ℕ
  pub project_id : Option ℕ
  pub feature_id : Option ℕ
  pub task_id : Option ℕ
  pub content : Text
  pub created_at : ℕ
  pub updated_at : ℕ
  pub deleted_at : Option ℕ
  pub deleted_by : Option ℕ

pub record Attachment : Type 0 where
  pub id : ℕ
  pub organization_id : ℕ
  pub uploaded_by : ℕ
  pub project_id : Option ℕ
  pub feature_id : Option ℕ
  pub task_id : Option ℕ
  pub activity_id : Option ℕ
  pub file_name : Text
  pub s3_key : Text
  pub size_bytes : ℕ
  pub mime_type : Text
  pub created_at : ℕ
  pub deleted_at : Option ℕ
  pub deleted_by : Option ℕ

pub record ProjectDiscussionRead : Type 0 where
  pub organization_id : ℕ
  pub user_id : ℕ
  pub project_id : ℕ
  pub last_read_at : ℕ
