-- ===== src/Media/Lifecycle.antt =====
-- The life of an upload.
use be_py_eco.Prelude.{
  ℕ, ◌≡◌, ◌↔◌, true, false, [], ◌∷◌, arith, ◌==◌, Text, in_texts, length, filter_rows,
}
use be_py_eco.Schema.{MediaUpload}
use be_py_eco.World.{World, ok}
use be_py_eco.Media.{
  Bytes, MediaServices, valid, accepted_mime_types, is_kind, is_pending, validate_bytes,
  validate_upload,
}

module _ (ms : MediaServices) where
  -- A file is accepted exactly when it has the declared size, a supported declared type, magic
  -- bytes of that type, and an image that decodes.
  validate_bytes_iff :
      (bytes : Bytes) (size : ℕ) (mime : Text)
      → (validate_bytes ms bytes size mime ≡ valid) ↔ (
          (length bytes ≡ size)
          × (in_texts mime accepted_mime_types ≡ true)
          × (is_kind mime (ms.guess_mime bytes) ≡ true)
          × (ms.decodes bytes ≡ true))
  unfolding validate_bytes
  validate_bytes_iff bytes size mime = ground arith

  -- An upload that has left `pending` is not touched again by a repeated delivery.
  validate_upload-processed :
      (id : ℕ) (w : World) (m : MediaUpload)
      → filter_rows (λ r. r.id == id) w.db.media_uploads ≡ m ∷ []
      → is_pending m.status ≡ false
      → validate_upload ms id w ≡ (ok tt, w)
  unfolding validate_upload
  validate_upload-processed id w m e done = ground arith
