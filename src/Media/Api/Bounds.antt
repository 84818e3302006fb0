-- ===== src/Media/Api/Bounds.antt =====
-- What an upload credential allows.
use be_py_eco.Prelude.{
  ℕ, ◌≤◌, ◌≡◌, refl, inl, inr, Option, some, [], ◌∷◌, ◌++◌, arith, Option-cases, Text, codes,
}
use be_py_eco.Schema.{Staff, MediaUpload, pending, Json, obj}
use be_py_eco.World.{World, ok, Result-cases}
use be_py_eco.Common.Authentication.{staff_actor}
use be_py_eco.Common.Idempotency.{Response}
use be_py_eco.Common.Render.{uuid_text}
use be_py_eco.Common.Http.{Framework, Request, required, staff_only, data_response}
use be_py_eco.Common.Http.Guards.{actor_of, staff_only-ok}
use be_py_eco.Common.Problem.{get_key}
use be_py_eco.Media.Upload.{
  max_upload_size_bytes, quarantine_prefix, new_upload, ObjectStorage, UploadCredential,
  upload_policy, request_upload, field_is, content_length_range, generate_presigned_upload,
}
use be_py_eco.Media.Api.{credential_representation, upload_form, request_upload_view}

required-some :
    {A : Type 0} (name : Text) (f : Json → Option A) (body : Json) (a : A)
    → required name f body ≡ some a
    → (j : Json) × (f j ≡ some a)
unfolding required
required-some name f (obj fs) a h = elim (Option-cases (get_key name fs)) [
  | inl e ↦ absurd (ground arith)
  | inr (j, e) ↦ (j, ground arith)
]
required-some name f (Json.null) a h = absurd (ground arith)
required-some name f (Json.bool b) a h = absurd (ground arith)
required-some name f (Json.num n) a h = absurd (ground arith)
required-some name f (Json.str s) a h = absurd (ground arith)
required-some name f (Json.arr xs) a h = absurd (ground arith)

-- what the form accepts has a size between one byte and 25 MiB
upload_form-size :
    (fw : Framework) (body : Json) (content_type : Text) (size : ℕ)
    → upload_form fw body ≡ some (content_type, size)
    → (1 ≤ size) × (size ≤ max_upload_size_bytes)
unfolding upload_form
upload_form-size fw body content_type size h =
    elim (Option-cases
      (required (codes "size_bytes") (fw.integer_field 1 max_upload_size_bytes) body)) [
        | inl e ↦ absurd (ground arith)
        | inr (n, e) ↦
            let (j, p) =
              required-some (codes "size_bytes") (fw.integer_field 1 max_upload_size_bytes) body n
                e in
            ground (arith, fw.integer_field_bounds 1 max_upload_size_bytes j n p)
      ]

module _ (fw : Framework) (os : ObjectStorage) (request : Request) (w : World) where
  -- the credential for an upload: what the store signs for this bucket, the key and the type of the
  -- upload, a content between 1 and 26214400 bytes, and five minutes
  unfoldable pub credential_for : MediaUpload → UploadCredential
  credential_for m =
      let presigned = os.generate_presigned_post (record {
        bucket = os.bucket_name;
        key = m.storage_key;
        fields = (codes "Content-Type", m.declared_content_type) ∷ [];
        conditions =
            field_is (codes "Content-Type") m.declared_content_type
            ∷ content_length_range 1 26214400
            ∷ [];
        expires_in = 300;
      }) in
      record { media_upload = m; upload_url = presigned.0; upload_fields = presigned.1 }

  -- A request that gets a credential came from an active staff member; the database gains one
  -- pending upload, of a declared size between one byte and 25 MiB, under a fresh key in the
  -- quarantine, and nothing else; the credential is what the store signs for this key, for the
  -- declared type, for a content of one byte to 25 MiB, and for five minutes.
  pub request_upload_view-ok :
      (r : Response)
      → (request_upload_view fw os request w).0 ≡ ok r
      → (s : Staff) × (m : MediaUpload) × (actor_of request.credentials w.db ≡ some (staff_actor s))
        × (m.status ≡ pending)
        × (m.storage_key ≡ quarantine_prefix ++ uuid_text (w.ids 0))
        × (1 ≤ m.declared_size_bytes)
        × (m.declared_size_bytes ≤ 26214400)
        × ((request_upload_view fw os request w).1.db
            ≡ record w.db { media_uploads = w.db.media_uploads ++ m ∷ [] })
        × (r ≡ data_response 200 (credential_representation (credential_for m)) request)
  unfolding request_upload_view credential_for request_upload generate_presigned_upload
      upload_policy
  request_upload_view-ok r h = elim (Result-cases (staff_only request w).0) [
    | inr (e, p) ↦ absurd (ground arith)
    | inl (s, p) ↦ elim (Option-cases (upload_form fw request.body)) [
      | inl f ↦ absurd (ground (arith, staff_only-ok request w s p))
      | inr ((content_type, size), f) ↦
          let (who, passed) = staff_only-ok request w s p in
          let size_bounds = upload_form-size fw request.body content_type size f in
          (
            s,
            new_upload (w.ids 1) (w.ids 0) content_type size,
            who,
            refl,
            refl,
            size_bounds.0,
            size_bounds.1,
            ground (arith, passed),
            ground (arith, passed),
          )
    ]
  ]
