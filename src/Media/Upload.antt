-- ===== src/Media/Upload.antt =====
-- src/modules/media/services/request_upload.py, and the presigned POST of
-- src/integrations/media_storage/client.py
use be_py_eco.Prelude.{ℕ, ◌*◌, none, List, [], ◌∷◌, ◌++◌, Text, codes}
use be_py_eco.Schema.{Fields, MediaUpload, pending}
use be_py_eco.World.{Action, pure, next_id, insert_media_upload, ◌>>=◌}
use be_py_eco.Common.Render.{uuid_text}

abbrev pub max_upload_size_bytes : ℕ
max_upload_size_bytes = 25 * 1024 * 1024

abbrev pub quarantine_prefix : Text
quarantine_prefix = codes "quarantine/"

abbrev default_expires_in_seconds : ℕ
default_expires_in_seconds = 300

-- a condition of a POST policy: an equal field, or a range for the length of the content
pub data Condition : Type 0 where
  field_is : Text → Text → Condition
  content_length_range : ℕ → ℕ → Condition

-- the arguments of `generate_presigned_post`
pub record PresignedPost : Type 0 where
  pub bucket : Text
  pub key : Text
  pub fields : List (Text × Text)
  pub conditions : List Condition
  pub expires_in : ℕ

-- boto3, and the name of the bucket in the environment: the URL and the fields of the form
pub record ObjectStorage : Type 0 where
  pub bucket_name : Text
  pub generate_presigned_post : PresignedPost → Text × Fields

pub record UploadCredential : Type 0 where
  pub media_upload : MediaUpload
  pub upload_url : Text
  pub upload_fields : Fields

abbrev pub new_upload : ℕ → ℕ → Text → ℕ → MediaUpload
new_upload id key content_type size_bytes = record {
  id = id;
  status = pending;
  storage_key = quarantine_prefix ++ uuid_text key;
  declared_content_type = content_type;
  declared_size_bytes = size_bytes;
  rejection_reason = [];
  webp_key = [];
  avif_key = [];
  thumbnail_key = [];
  product = none;
}

module _ (os : ObjectStorage) where
  open os use {bucket_name, generate_presigned_post}

  -- the policy that `generate_presigned_upload` signs
  unfoldable pub upload_policy : Text → Text → ℕ → PresignedPost
  upload_policy key content_type max_size_bytes = record {
    bucket = bucket_name;
    key = key;
    fields = (codes "Content-Type", content_type) ∷ [];
    conditions =
        field_is (codes "Content-Type") content_type ∷ content_length_range 1 max_size_bytes ∷ [];
    expires_in = default_expires_in_seconds;
  }

  unfoldable pub generate_presigned_upload : Text → Text → ℕ → Text × Fields
  unfolding upload_policy
  generate_presigned_upload key content_type max_size_bytes =
      generate_presigned_post (upload_policy key content_type max_size_bytes)

  unfoldable pub request_upload : Text → ℕ → Action UploadCredential
  unfolding insert_media_upload generate_presigned_upload
  request_upload content_type size_bytes = do
    key ← next_id
    id ← next_id
    media_upload ← insert_media_upload (new_upload id key content_type size_bytes)
    let presigned =
        generate_presigned_upload media_upload.storage_key content_type max_upload_size_bytes
    pure (record {
      media_upload = media_upload;
      upload_url = presigned.0;
      upload_fields = presigned.1;
    })
