-- ===== src/Media/Api.antt =====
-- src/modules/media/api/admin: the endpoint that hands out upload credentials.
pub mod Bounds
use be_py_eco.Prelude.{ℕ, true, Option, Text, codes}
use be_py_eco.Errors.{validation}
use be_py_eco.Schema.{Json, str, obj, end, field}
use be_py_eco.World.{Action, pure, or_raise, ◌>>=◌, ◌>>◌}
use be_py_eco.Common.Idempotency.{Response}
use be_py_eco.Common.Render.{uuid_text}
use be_py_eco.Common.Http.{Framework, Request, required, both, staff_only, data_response}
use be_py_eco.Media.Upload.{max_upload_size_bytes, ObjectStorage, UploadCredential, request_upload}

abbrev pub credential_representation : UploadCredential → Json
credential_representation c = obj (
    field (codes "media_upload_id") (str (uuid_text c.media_upload.id)) (
      field (codes "upload_url") (str c.upload_url)
        (field (codes "upload_fields") (obj c.upload_fields) end)))

module _ (fw : Framework) where
  open fw use {char_field, integer_field}

  -- `RequestUploadSerializer`
  unfoldable pub upload_form : Json → Option (Text × ℕ)
  unfolding required
  upload_form body =
      both (required (codes "content_type") (char_field true) body)
        (required (codes "size_bytes") (integer_field 1 max_upload_size_bytes) body)

  -- `RequestUploadView.post`
  unfoldable pub request_upload_view : ObjectStorage → Request → Action Response
  unfolding staff_only
  request_upload_view os request = do
    staff_only request
    form ← or_raise (upload_form request.body) validation
    credential ← request_upload os form.0 form.1
    pure (data_response 200 (credential_representation credential) request)
