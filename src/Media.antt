-- ===== src/Media.antt =====
-- src/modules/media: tasks.py (`validate_upload`), derivatives.py and
-- services/attach_to_product.py, and the scan of src/integrations/clamav/client.py
pub mod Lifecycle
pub mod Upload
pub mod Api
pub mod Ready
use be_py_eco.Prelude.{
  ℕ, Bool, true, false, not, Option, none, some, List, [], ◌∷◌, ◌++◌, ltb, ◌==◌, if◌then◌else◌,
  Text, codes, eq_text, is_empty, in_texts, length, filter_rows, update_rows,
}
use be_py_eco.Errors.{
  connection_error, media, failure, storage_error, data_error, does_not_exist, upload_not_ready,
}
use be_py_eco.Schema.{Database, Product, MediaUpload, MediaUploadStatus, pending, ready, rejected}
use be_py_eco.World.{
  raise, branch, Action, ok, pure, reads, the_row, or_raise, raise_if, modify, atomic, ◌>>=◌, ◌>>◌,
}
use be_py_eco.Common.Render.{uuid_text}
use be_py_eco.Catalog.Publish.{is_ready}

abbrev pub Bytes : Type 0
Bytes = List ℕ

pub record Derivatives : Type 0 where
  pub webp : Bytes
  pub avif : Bytes
  pub thumbnail_webp : Bytes

-- the pixels of an image, without any metadata
pub record RgbImage : Type 0 where
  pub width : ℕ
  pub height : ℕ
  pub pixels : Bytes

-- Third-party code over bytes: `filetype.guess`, Pillow's `verify` and its images, the clamd scan, and the name under which the storage saves a file.
pub record MediaServices : Type 0 where
  pub guess_mime : Bytes → Option Text
  pub decodes : Bytes → Bool
  pub instream : Bytes → Option (Text × Option Text)
  -- `Image.open(…).convert("RGB")`, `save(format=…)`, `thumbnail(size)`; `none` is an exception
  pub convert_rgb : Bytes → Option RgbImage
  pub save_as : Text → RgbImage → Option Bytes
  pub thumbnail : ℕ × ℕ → RgbImage → RgbImage
  pub available_name : List (Text × Bytes) → Text → Text

abbrev thumbnail_size : ℕ × ℕ
thumbnail_size = (320, 320)

abbrev derivatives_of : Option Bytes → Option Bytes → Option Bytes → Option Derivatives
derivatives_of (some webp) (some avif) (some thumbnail) =
    some (record { webp = webp; avif = avif; thumbnail_webp = thumbnail })
derivatives_of _ _ _ = none

pub data ValidationResult : Type 0 where
  valid : ValidationResult
  invalid : Text → ValidationResult

abbrev pub accepted_mime_types : List Text
accepted_mime_types = codes "image/jpeg" ∷ codes "image/png" ∷ codes "image/webp" ∷ []

-- `kind is not None and kind.mime == declared`
abbrev pub is_kind : Text → Option Text → Bool
is_kind declared none = false
is_kind declared (some mime) = eq_text mime declared

abbrev mime_or_unknown : Option Text → Text
mime_or_unknown none = codes "unknown"
mime_or_unknown (some mime) = mime

-- what `scan_bytes` does: it returns, raises `InfectedFileError` with the signature, or lets clamd's
-- connection error through
pub data ScanResult : Type 0 where
  clean unreachable : ScanResult
  infected : Text → ScanResult

-- `default_storage.open(key).read()`
unfoldable pub read_file : Text → List (Text × Bytes) → Option Bytes
read_file key [] = none
read_file key (f ∷ fs) = if eq_text f.0 key then some f.1 else read_file key fs

abbrev pub is_pending : MediaUploadStatus → Bool
is_pending pending = true
is_pending ready = false
is_pending rejected = false

abbrev pub reject : Text → MediaUpload → MediaUpload
reject reason m = record m { status = rejected; rejection_reason = reason }

abbrev pub save_upload : ℕ → (MediaUpload → MediaUpload) → Database → Database
save_upload id f db = record db { media_uploads = update_rows (λ m. m.id == id) f db.media_uploads }

-- `_reject`, with `rejection_reason = CharField(max_length=255)`
unfoldable pub reject_upload : MediaUpload → Text → Action (Unit {0})
reject_upload m reason = do
  raise_if (ltb 255 (length reason)) (failure data_error)
  modify (save_upload m.id (reject reason))

abbrev pub make_ready : Text → Text → Text → MediaUpload → MediaUpload
make_ready webp avif thumbnail m = record m {
  status = ready;
  webp_key = webp;
  avif_key = avif;
  thumbnail_key = thumbnail;
}

module _ (ms : MediaServices) where
  open ms use {guess_mime, decodes, instream, convert_rgb, save_as, thumbnail, available_name}

  -- what is saved of the clean copy, in the order of the saves
  abbrev derive : RgbImage → Option Derivatives
  derive stripped =
      derivatives_of (save_as (codes "WEBP") stripped) (save_as (codes "AVIF") stripped)
        (save_as (codes "WEBP") (thumbnail thumbnail_size stripped))

  -- `generate_derivatives`: only the pixels of the file go into what is published
  unfoldable pub generate_derivatives : Bytes → Option Derivatives
  generate_derivatives bytes = elim (convert_rgb bytes) [
    | none ↦ none
    | some stripped ↦ derive stripped
  ]

  -- `_validate_bytes`
  unfoldable pub validate_bytes : Bytes → ℕ → Text → ValidationResult
  validate_bytes bytes declared_size declared_type =
      if not (length bytes == declared_size)
      then invalid (codes "declared size does not match the uploaded object's size")
      else if not (in_texts declared_type accepted_mime_types)
      then invalid (codes "unsupported declared content type: " ++ declared_type)
      else if not (is_kind declared_type (guess_mime bytes))
      then invalid (
          codes "magic bytes ("
          ++ (mime_or_unknown (guess_mime bytes) ++ codes ") do not match declared type"))
      else if not (decodes bytes)
      then invalid (codes "file failed to decode as a valid image")
      else valid

  -- `signature or "unknown"`
  abbrev signature_or_unknown : Option Text → Text
  signature_or_unknown none = codes "unknown"
  signature_or_unknown (some s) = if is_empty s then codes "unknown" else s

  abbrev scan_of : Option (Text × Option Text) → ScanResult
  scan_of none = unreachable
  scan_of (some (status, signature)) =
      if eq_text status (codes "FOUND") then infected (signature_or_unknown signature) else clean

  unfoldable pub scan_bytes : Bytes → ScanResult
  scan_bytes bytes = scan_of (instream bytes)

  -- `default_storage.save(name, content)`: files survive a roll back of the database
  unfoldable pub save_file : Text → Bytes → Action Text
  save_file name content w =
      let saved = available_name w.files name in
      (ok saved, record w { files = (saved, content) ∷ w.files })

  -- the derivatives under the public prefix, and the upload made ready
  unfoldable pub finish_upload : MediaUpload → Bytes → Action (Unit {0})
  unfolding save_file
  finish_upload m bytes = do
    derived ← or_raise (generate_derivatives bytes) (failure storage_error)
    let base = codes "products/" ++ uuid_text m.id
    webp ← save_file (base ++ codes ".webp") derived.webp
    avif ← save_file (base ++ codes ".avif") derived.avif
    thumbnail ← save_file (base ++ codes "-thumb.webp") derived.thumbnail_webp
    modify (save_upload m.id (make_ready webp avif thumbnail))

  -- the verdict of the scan
  unfoldable pub after_scan : MediaUpload → Bytes → ScanResult → Action (Unit {0})
  unfolding finish_upload reject_upload
  after_scan m bytes clean = finish_upload m bytes
  after_scan m bytes (infected signature) =
      reject_upload m (codes "file is infected: " ++ signature)
  after_scan m bytes unreachable = raise (failure connection_error)

  -- the verdict of the validation
  unfoldable pub after_validation : MediaUpload → Bytes → ValidationResult → Action (Unit {0})
  unfolding after_scan
  after_validation m bytes valid = after_scan m bytes (scan_bytes bytes)
  after_validation m bytes (invalid reason) = reject_upload m reason

  unfoldable pub read_upload : Text → Action Bytes
  read_upload key w = or_raise (read_file key w.files) (failure storage_error) w

  unfoldable pub process_pending : MediaUpload → Action (Unit {0})
  unfolding after_validation read_upload
  process_pending m = do
    bytes ← read_upload m.storage_key
    after_validation m bytes (validate_bytes bytes m.declared_size_bytes m.declared_content_type)

  -- The task runs under a row lock: two deliveries for one upload run one after the other.
  unfoldable pub validate_upload : ℕ → Action (Unit {0})
  unfolding process_pending
  validate_upload id = atomic (do
    rows ← reads (λ db. filter_rows (λ m. m.id == id) db.media_uploads)
    m ← the_row rows (failure does_not_exist)
    branch (is_pending m.status) (process_pending m) (pure tt))

abbrev pub attach : ℕ → MediaUpload → MediaUpload
attach product m = record m { product = some product }

unfoldable pub attach_media_to_product : MediaUpload → Product → Action MediaUpload
attach_media_to_product m product = do
  raise_if (not (is_ready m.status)) (media upload_not_ready)
  modify (save_upload m.id (attach product.id))
  pure (attach product.id m)
