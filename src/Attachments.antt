-- ===== src/Attachments.antt =====
-- app/services/attachment_service.py with app/repositories/attachment_repository.py. The object store
-- is a parameter: whether a key lies under the prefix of an organization, and the size of an object.
mod Objects
mod Reach
mod Tests
use pro_lens_backend.Base.{
  ℕ, Bool, true, false, Option, none, some, List, [], ◌∷◌, ◌++◌, ◌==◌, ◌&&◌, ◌||◌, not, is_none,
  same_id, ltb, any, Result, ok, err, ◌>>=◌, ◌>>◌, raise_if, raise_unless, or_raise, update_where,
  if◌then◌else◌, text_eq,
}
use pro_lens_backend.Config.{Text}
use pro_lens_backend.Errors.{Error}
use pro_lens_backend.Enums.{is_admin_role, is_super_admin, is_manager}
use pro_lens_backend.Model.{Db, User, Attachment}
use pro_lens_backend.Repositories.{live, by_id}
use pro_lens_backend.Comments.{load_target}

pub record AttachmentCreate : Type 0 where
  pub project_id : Option ℕ
  pub feature_id : Option ℕ
  pub task_id : Option ℕ
  pub activity_id : Option ℕ
  pub file_name : Text
  pub s3_key : Text
  pub size_bytes : ℕ
  pub mime_type : Text

-- The store, and `ATTACHMENT_MAX_SIZE_BYTES`
pub record Storage : Type 0 where
  pub key_belongs_to_org : Text → ℕ → Bool
  pub get_object_size : Text → Option ℕ
  pub max_size_bytes : ℕ

-- `create_upload_url`: the organization whose prefix the key gets.
unfoldable pub create_upload_url : Storage → ℕ → User → Result ℕ
create_upload_url storage size_bytes caller = do
  org ← or_raise caller.organization_id (Error.app_exception 400)
  raise_if (ltb storage.max_size_bytes size_bytes) (Error.app_exception 413)
  ok org

-- Of any row, deleted ones too.
unfoldable pub s3_key_exists : Text → Db → Bool
s3_key_exists s3_key db = any (λ (a : Attachment). text_eq a.s3_key s3_key) db.attachments

abbrev pub new_attachment : ℕ → ℕ → ℕ → User → AttachmentCreate → Attachment
new_attachment new_id now org caller payload = record {
  id = new_id;
  organization_id = org;
  uploaded_by = caller.id;
  project_id = payload.project_id;
  feature_id = payload.feature_id;
  task_id = payload.task_id;
  activity_id = payload.activity_id;
  file_name = payload.file_name;
  s3_key = payload.s3_key;
  size_bytes = payload.size_bytes;
  mime_type = payload.mime_type;
  created_at = now;
  deleted_at = none;
  deleted_by = none;
}

-- `create_attachment` before it asks the store for the object.
unfoldable pub check_attachment : Storage → AttachmentCreate → User → Db → Result ℕ
unfolding s3_key_exists load_target
check_attachment storage payload caller db = do
  org ← or_raise caller.organization_id (Error.app_exception 400)
  raise_unless (storage.key_belongs_to_org payload.s3_key org) (Error.app_exception 400)
  raise_if (s3_key_exists payload.s3_key db) (Error.app_exception 409)
  target ←
      or_raise
        (load_target payload.project_id payload.feature_id payload.task_id payload.activity_id db)
        (Error.app_exception 404)
  raise_unless (same_id (some target) caller.organization_id) (Error.app_exception 404)
  ok org

abbrev pub wrong_size : Storage → ℕ → ℕ → Bool
wrong_size storage stored_size size_bytes =
    not (stored_size == size_bytes) || ltb storage.max_size_bytes stored_size

-- What `create_attachment` returns or raises, and the key of the object that it deletes, if it does.
abbrev pub register :
    Storage
    → ℕ
    → ℕ
    → AttachmentCreate
    → User
    → Db
    → Option ℕ
    → Result ℕ
    → Result (Attachment × Db) × Option Text
register storage new_id now payload caller db size (err e) = (err e, none)
register storage new_id now payload caller db none (ok org) = (err (Error.app_exception 400), none)
register storage new_id now payload caller db (some stored_size) (ok org) =
    if wrong_size storage stored_size payload.size_bytes
    then (err (Error.app_exception 400), some payload.s3_key)
    else (
      ok (
        new_attachment new_id now org caller payload,
        record db {
          attachments = db.attachments ++ new_attachment new_id now org caller payload ∷ [];
        },
      ),
      none,
    )

unfoldable pub create_attachment :
    Storage → ℕ → ℕ → AttachmentCreate → User → Db → Result (Attachment × Db) × Option Text
unfolding check_attachment
create_attachment storage new_id now payload caller db =
    register storage new_id now payload caller db (storage.get_object_size payload.s3_key)
      (check_attachment storage payload caller db)

-- `_get_attachment`, which the download and the deletion share.
unfoldable pub get_attachment : ℕ → User → Db → Result Attachment
get_attachment attachment_id caller db = do
  attachment ←
      or_raise
        (live (λ (a : Attachment). a.deleted_at)
          (by_id (λ (a : Attachment). a.id) attachment_id db.attachments))
        (Error.app_exception 404)
  raise_unless
      (is_super_admin caller.role
        || same_id (some attachment.organization_id) caller.organization_id)
      (Error.app_exception 404)
  ok attachment

abbrev pub soft_delete_attachment : ℕ → ℕ → Attachment → Attachment
soft_delete_attachment now by a = record a { deleted_at = some now; deleted_by = some by }

unfoldable pub delete_attachment : ℕ → ℕ → User → Db → Result Db
unfolding get_attachment
delete_attachment now attachment_id caller db = do
  attachment ← get_attachment attachment_id caller db
  raise_unless
      (attachment.uploaded_by == caller.id || is_admin_role caller.role || is_manager caller.role)
      Error.insufficient_permission
  ok (record db {
    attachments =
        update_where (λ (a : Attachment). a.id == attachment.id)
          (soft_delete_attachment now caller.id) db.attachments;
  })
