-- ===== src/Attachments/Tests.antt =====
-- Attachments on small inputs.
use pro_lens_backend.Base.{arith, ℕ, true, none, some, [], ◌∷◌, ◌≡◌, refl, ok, err, text_eq}
use pro_lens_backend.Errors.{Error}
use pro_lens_backend.Enums.{UserRole}
use pro_lens_backend.Model.{Attachment}
use pro_lens_backend.Model.Samples.{person, database}
use pro_lens_backend.Repositories.{active_project}
use pro_lens_backend.Attachments.{
  AttachmentCreate, Storage, create_attachment, new_attachment, delete_attachment,
}
use pro_lens_backend.Attachments.Objects.{Objects, put_object, delete_object, KeepsObjects}
use pro_lens_backend.Attachments.Reach.{
  uploaded, attachment_created, Reach, here, next, Reach-KeepsObjects,
}

-- A store with one object of 12 bytes under each key, of which 20 are allowed.
abbrev storage : Storage
storage = record {
  key_belongs_to_org = λ key org. true;
  get_object_size = λ key. some 12;
  max_size_bytes = 20;
}

abbrev request : ℕ → AttachmentCreate
request size = record {
  project_id = some 10;
  feature_id = none;
  task_id = none;
  activity_id = none;
  file_name = [];
  s3_key = 1 ∷ [];
  size_bytes = size;
  mime_type = [];
}

abbrev upload : Attachment
upload = new_attachment 80 5 1 (person 2 UserRole.employee) (request 12)

registered :
    create_attachment storage 80 5 (request 12) (person 2 UserRole.employee) (database [] [])
    ≡ (ok (upload, record (database [] []) { attachments = upload ∷ [] }), none)
unfolding create_attachment active_project text_eq
registered = refl

-- A wrong size deletes the object; a key that is taken is left alone.
wrong_size_deleted :
    create_attachment storage 80 5 (request 11) (person 2 UserRole.employee) (database [] [])
    ≡ (err (Error.app_exception 400), some (1 ∷ []))
unfolding create_attachment active_project text_eq
wrong_size_deleted = refl

taken :
    create_attachment storage 81 6
      (request 11)
      (person 2 UserRole.employee)
      (record (database [] []) { attachments = upload ∷ [] })
    ≡ (err (Error.app_exception 409), none)
unfolding create_attachment active_project text_eq
taken = refl

not_the_uploader :
    delete_attachment 6 80
      (person 4 UserRole.employee)
      (record (database [] []) { attachments = upload ∷ [] })
    ≡ err Error.insufficient_permission
unfolding delete_attachment
not_the_uploader = refl

-- An upload of 12 bytes, a request that names 11 of them, an upload once more and a request with 12
abbrev uploads : Objects
uploads = put_object (1 ∷ []) 12 (λ key. none)

abbrev uploads_again : Objects
uploads_again = put_object (1 ∷ []) 12 (delete_object (some (1 ∷ [])) uploads)

registered_later :
    Reach storage
      (λ key. none)
      (database [] [])
      uploads_again
      (record (database [] []) { attachments = upload ∷ [] })
unfolding create_attachment active_project text_eq
registered_later =
    next
      (next
        (next (next here (uploaded (1 ∷ []) 12 refl)) (
          attachment_created 80 5 (request 11) (person 2 UserRole.employee)
            (err (Error.app_exception 400)) (some (1 ∷ [])) refl))
        (uploaded (1 ∷ []) 12 refl))
      (attachment_created 80 5 (request 12) (person 2 UserRole.employee)
        (ok (upload, record (database [] []) { attachments = upload ∷ [] })) none refl)

Reach-KeepsObjects_example :
    KeepsObjects storage uploads_again (record (database [] []) { attachments = upload ∷ [] })
Reach-KeepsObjects_example = Reach-KeepsObjects registered_later (tt, λ key. omega arith)
