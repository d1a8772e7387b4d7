-- ===== src/Attachments/Objects.antt =====
-- The object store beside the rows of app/services/attachment_service.py, under each of its operations.
use pro_lens_backend.Base.{
  ℕ, ◌≤◌, Bool, true, false, Option, none, some, List, [], ◌∷◌, ◌++◌, ◌≡◌, refl, arith, any, count,
  count-append, count-any, count-update_where, All, All-append, All-map_of, All-zip,
  All-update_where, Bool-cases, inl, inr, Result, ok, err, Ensures, returns, Ensures-or_raise,
  Ensures-raise_unless, Ensures-raise_if, text_eq, text_eq_path, if◌then◌else◌, any-false, ◌==◌,
  ◌∙◌, ◌||◌, ap, Ensures-bind, same_id,
}
use pro_lens_backend.Enums.{is_admin_role, is_manager}
use pro_lens_backend.Comments.{load_target}
use pro_lens_backend.Config.{Text}
use pro_lens_backend.Model.{Db, User, Attachment}
use pro_lens_backend.Attachments.{
  AttachmentCreate, Storage, new_attachment, s3_key_exists, check_attachment, wrong_size, register,
  create_attachment, get_attachment, soft_delete_attachment, delete_attachment,
}

-- The sizes of the objects of the store
abbrev pub Objects : Type 0
Objects = Text → Option ℕ

abbrev pub at_store : Storage → Objects → Storage
at_store storage objects = record storage { get_object_size = objects }

abbrev pub delete_object : Option Text → Objects → Objects
delete_object none objects = objects
delete_object (some removed) objects = λ key. if text_eq key removed then none else objects key

abbrev pub put_object : Text → ℕ → Objects → Objects
put_object new size objects = λ key. if text_eq key new then some size else objects key

-- What is committed of a request: a refused one is rolled back.
abbrev pub committed : Db → Result (Attachment × Db) → Db
committed db (err e) = db
committed db (ok (a, d)) = d

-- The row of an object: its size, in the bounds, and a key of the row's organization
abbrev pub Stored : Storage → Objects → Attachment → Type 0
Stored storage objects a =
    (objects a.s3_key ≡ some a.size_bytes)
    × (a.size_bytes ≤ storage.max_size_bytes)
    × (storage.key_belongs_to_org a.s3_key a.organization_id ≡ true)

abbrev pub has_object : Text → Attachment → Bool
has_object key a = text_eq a.s3_key key

-- Every row has its object, and no two rows share one.
abbrev pub KeepsObjects : Storage → Objects → Db → Type 0
KeepsObjects storage objects db =
    All (Stored storage objects) db.attachments
    × ((key : Text) → count (has_object key) db.attachments ≤ 1)

module _ (storage : Storage) (objects after : Objects) (key : Text) where
  -- A change of one object leaves the rows with other keys alone.
  others-Stored :
      (rows : List Attachment)
      → ((a : Attachment) → has_object key a ≡ false → after a.s3_key ≡ objects a.s3_key)
      → any (has_object key) rows ≡ false
      → All (Stored storage objects) rows
      → All (Stored storage after) rows
  others-Stored rows same unused stored =
      All-map_of _ (Stored storage after) rows (λ a h. (rw (same a h.0) h.1.0, h.1.1, h.1.2))
        (All-zip _ _ rows (any-false _ rows unused) stored)

append_once :
    (a : Attachment) (rows : List Attachment)
    → ((key : Text) → count (has_object key) rows ≤ 1)
    → any (has_object a.s3_key) rows ≡ false
    → (key : Text) → count (has_object key) (rows ++ a ∷ []) ≤ 1
append_once a rows once new key =
    rw (count-append (has_object key) rows (a ∷ [])) (elim (Bool-cases (has_object key a)) [
      | inl hit ↦
          let none_yet = count-any (has_object a.s3_key) rows new in
          let none_here : count (has_object key) rows ≡ 0 =
            rw (text_eq_path a.s3_key key hit) at none_yet in
          rw (none_here, hit) (omega arith)
      | inr miss ↦ rw miss (omega (arith, once key))
    ])

module _ (storage : Storage) (objects : Objects) (db : Db)
    (kept : KeepsObjects storage objects db) where
  pub upload-KeepsObjects :
      (key : Text) (size : ℕ)
      → s3_key_exists key db ≡ false
      → KeepsObjects storage (put_object key size objects) db
  unfolding s3_key_exists
  upload-KeepsObjects key size unused = (
    others-Stored storage objects (put_object key size objects) key db.attachments
        (λ a other. rw other refl) unused kept.0,
    kept.1,
  )

  delete_object-KeepsObjects :
      (key : Text)
      → s3_key_exists key db ≡ false
      → KeepsObjects storage (delete_object (some key) objects) db
  unfolding s3_key_exists
  delete_object-KeepsObjects key unused = (
    others-Stored storage objects (delete_object (some key) objects) key db.attachments
        (λ a other. rw other refl) unused kept.0,
    kept.1,
  )

  abbrev CheckedFor : AttachmentCreate → ℕ → Type 0
  CheckedFor payload org =
      (storage.key_belongs_to_org payload.s3_key org ≡ true)
      × (s3_key_exists payload.s3_key db ≡ false)

  checked :
      (payload : AttachmentCreate) (caller : User)
      → Ensures (CheckedFor payload) (check_attachment (at_store storage objects) payload caller db)
  unfolding check_attachment
  checked payload caller =
      let P = CheckedFor payload in
      let target_of =
        load_target payload.project_id payload.feature_id payload.task_id payload.activity_id db in
      Ensures-or_raise P caller.organization_id _ _ λ org mine.
        Ensures-raise_unless P (storage.key_belongs_to_org payload.s3_key org) _ _ λ belongs.
          Ensures-raise_if P (s3_key_exists payload.s3_key db) _ _ λ unused.
            Ensures-or_raise P target_of _ _ λ target found.
              Ensures-raise_unless P (same_id (some target) caller.organization_id) _ _
                λ same. returns (belongs, unused)

  register-KeepsObjects :
      (new_id now : ℕ) (payload : AttachmentCreate) (caller : User) (size : Option ℕ) (c : Result ℕ)
      → objects payload.s3_key ≡ size
      → Ensures (CheckedFor payload) c
      → let run = register (at_store storage objects) new_id now payload caller db size c in
        KeepsObjects storage (delete_object run.1 objects) (committed db run.0)
  unfolding s3_key_exists
  register-KeepsObjects new_id now payload caller size (err e) stored fine = kept
  register-KeepsObjects new_id now payload caller none (ok org) stored fine = kept
  register-KeepsObjects new_id now payload caller (some n) (ok org) stored
        (returns (belongs, unused)) =
      elim (Bool-cases (wrong_size (at_store storage objects) n payload.size_bytes)) [
        | inl wrong ↦ rw wrong (delete_object-KeepsObjects payload.s3_key unused)
        | inr right ↦
            let a = new_attachment new_id now org caller payload in
            let size_right : n ≡ payload.size_bytes = ground arith in
            let in_bounds : payload.size_bytes ≤ storage.max_size_bytes = ground arith in
            rw right (
              All-append (Stored storage objects) db.attachments (a ∷ []) kept.0
                  (((stored ∙ ap some size_right), in_bounds, belongs), tt),
              append_once a db.attachments kept.1 unused,
            )
      ]

  pub create-KeepsObjects :
      (new_id now : ℕ) (payload : AttachmentCreate) (caller : User)
      → let run = create_attachment (at_store storage objects) new_id now payload caller db in
        KeepsObjects storage (delete_object run.1 objects) (committed db run.0)
  unfolding create_attachment
  create-KeepsObjects new_id now payload caller =
      register-KeepsObjects new_id now payload caller (objects payload.s3_key)
        (check_attachment (at_store storage objects) payload caller db) refl
        (checked payload caller)

  pub delete-KeepsObjects :
      (now id : ℕ) (caller : User)
      → Ensures (KeepsObjects storage objects) (delete_attachment now id caller db)
  unfolding delete_attachment
  delete-KeepsObjects now id caller =
      let P = KeepsObjects storage objects in
      Ensures-bind P (get_attachment id caller db) _ λ found shown.
        Ensures-raise_unless P
          ((found.uploaded_by == caller.id || is_admin_role caller.role) || is_manager caller.role)
          _ _
          λ allowed.
            let is_found = λ (a : Attachment). a.id == found.id in
            let deleted = soft_delete_attachment now caller.id in
            returns (
              All-update_where (Stored storage objects) is_found deleted db.attachments
                  (λ a hit h. h) kept.0,
              λ key.
                  rw
                    (count-update_where (has_object key) is_found deleted (λ a hit. refl)
                      db.attachments)
                    (kept.1 key),
            )
