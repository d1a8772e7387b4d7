-- ===== src/Attachments/Reach.antt =====
-- The rows and objects that uploads and requests on attachments reach. A refused request rolls its rows
-- back, but not its deletion of an object.
use pro_lens_backend.Base.{ℕ, false, Option, ◌≡◌, Result, ok, Ensures-ok}
use mathlib.Core.Path.{subst}
use pro_lens_backend.Config.{Text}
use pro_lens_backend.Model.{Db, User, Attachment}
use pro_lens_backend.Attachments.{
  AttachmentCreate, Storage, s3_key_exists, create_attachment, delete_attachment,
}
use pro_lens_backend.Attachments.Objects.{
  Objects, at_store, delete_object, put_object, committed, KeepsObjects, upload-KeepsObjects,
  create-KeepsObjects, delete-KeepsObjects,
}

-- A client puts an object under a key that no row has, or a request runs to its end.
pub data Step (storage : Storage) (objects : Objects) (db : Db) : Objects → Db → Type 0 where
  uploaded :
      (key : Text) (size : ℕ)
      → s3_key_exists key db ≡ false
      → Step storage objects db (put_object key size objects) db
  attachment_created :
      (new_id now : ℕ) (payload : AttachmentCreate) (caller : User) (r : Result (Attachment × Db))
      (removed : Option Text)
      → create_attachment (at_store storage objects) new_id now payload caller db ≡ (r, removed)
      → Step storage objects db (delete_object removed objects) (committed db r)
  attachment_deleted :
      (now id : ℕ) (caller : User) (d : Db)
      → delete_attachment now id caller db ≡ ok d
      → Step storage objects db objects d

pub data Reach (storage : Storage) (objects : Objects) (db : Db) : Objects → Db → Type 0 where
  here : Reach storage objects db objects db
  next :
      {o p : Objects} {d e : Db}
      → Reach storage objects db o d
      → Step storage o d p e
      → Reach storage objects db p e

Step-KeepsObjects :
    {storage : Storage} {o p : Objects} {d e : Db}
    → Step storage o d p e
    → KeepsObjects storage o d
    → KeepsObjects storage p e
Step-KeepsObjects {storage} {o} {p} {d} (uploaded key size unused) kept =
    upload-KeepsObjects storage o d kept key size unused
Step-KeepsObjects {storage} {o} {p} {d} (attachment_created new_id now payload c r removed run)
      kept =
    subst (λ t. KeepsObjects storage (delete_object t.1 o) (committed d t.0)) run
      (create-KeepsObjects storage o d kept new_id now payload c)
Step-KeepsObjects {storage} {o} {p} {d} (attachment_deleted now id c e h) kept =
    Ensures-ok _ _ (delete-KeepsObjects storage o d kept now id c) h

-- If every attachment has its object in the store, with the size of its row, within the allowed size
-- and under a key of the row's organization, and no two share one, this stays so after any sequence of
-- uploads under keys that no attachment has, requests to register an attachment, with the objects that
-- refused ones delete, and successful deletions of attachments.
pub Reach-KeepsObjects :
    {storage : Storage} {o : Objects} {d : Db} {p : Objects} {e : Db}
    → Reach storage o d p e
    → KeepsObjects storage o d
    → KeepsObjects storage p e
Reach-KeepsObjects here kept = kept
Reach-KeepsObjects (next reach step) kept = Step-KeepsObjects step (Reach-KeepsObjects reach kept)
