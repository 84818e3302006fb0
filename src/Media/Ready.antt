-- ===== src/Media/Ready.antt =====
-- Only checked uploads get ready, and only ready ones are attached.
use be_py_eco.Prelude.{
  ℕ, ◌≡◌, refl, ap, ◌∙◌, ◌⊎◌, inl, inr, true, some, List, [], ◌∷◌, ◌++◌, arith, ◌==◌, ==_refl,
  Option-cases, Text, codes, filter_rows, update_rows,
}
use be_py_eco.Prelude.Queries.{filter-update, update_one}
use be_py_eco.Schema.{MediaUpload, Product, ready}
use be_py_eco.World.{World, ok}
use be_py_eco.Media.{
  ScanResult, clean, infected, unreachable, invalid, reject, ValidationResult, Bytes, MediaServices,
  valid, is_pending, validate_bytes, validate_upload, scan_bytes, attach_media_to_product, attach,
  read_file,
}

ValidationResult-cases :
    (v : ValidationResult) → (v ≡ valid) ⊎ ((reason : Text) × (v ≡ invalid reason))
ValidationResult-cases valid = inl refl
ValidationResult-cases (invalid reason) = inr (reason, refl)

ScanResult-cases :
    (s : ScanResult)
    → (s ≡ clean) ⊎ ((s ≡ unreachable) ⊎ ((signature : Text) × (s ≡ infected signature)))
ScanResult-cases clean = inl refl
ScanResult-cases unreachable = inr (inl refl)
ScanResult-cases (infected signature) = inr (inr (signature, refl))

rejected-row :
    (id : ℕ) (reason : Text) (rows : List MediaUpload) (m : MediaUpload)
    → filter_rows (λ r. r.id == id) rows ≡ m ∷ []
    → filter_rows (λ r. r.id == id) (update_rows (λ r. r.id == m.id) (reject reason) rows)
      ≡ reject reason m ∷ []
rejected-row id reason rows m row =
    filter-update (λ r. r.id == id) (λ r. r.id == m.id) (reject reason) rows (λ r. refl)
    ∙ ap (update_rows (λ r. r.id == m.id) (reject reason)) row
    ∙ update_one (λ r. r.id == m.id) (reject reason) m (==_refl m.id)

module _ (ms : MediaServices) where
  -- When the task takes a pending upload to ready, the stored bytes passed the validation and the
  -- scan.
  pub validate_upload-ready :
      (id : ℕ) (w : World) (m m' : MediaUpload)
      → filter_rows (λ r. r.id == id) w.db.media_uploads ≡ m ∷ []
      → is_pending m.status ≡ true
      → filter_rows (λ r. r.id == id) (validate_upload ms id w).1.db.media_uploads ≡ m' ∷ []
      → m'.status ≡ ready
      → (bytes : Bytes) × ((read_file m.storage_key w.files ≡ some bytes)
          × (validate_bytes ms bytes m.declared_size_bytes m.declared_content_type ≡ valid)
          × (scan_bytes ms bytes ≡ clean))
  unfolding validate_upload
  validate_upload-ready id w m m' row waiting after is_ready_now =
      elim (Option-cases (read_file m.storage_key w.files)) [
        | inl gone ↦ absurd (ground arith)
        | inr (bytes, found) ↦
            elim (ValidationResult-cases
              (validate_bytes ms bytes m.declared_size_bytes m.declared_content_type)) [
                | inr (reason, bad) ↦
                    let saved = rejected-row id reason w.db.media_uploads m row in
                    absurd (ground arith)
                | inl good ↦ elim (ScanResult-cases (scan_bytes ms bytes)) [
                  | inl passed ↦ (bytes, (found, good, passed))
                  | inr (inl failed) ↦ absurd (ground arith)
                  | inr (inr (signature, dirty)) ↦
                      let saved =
                        rejected-row id (codes "file is infected: " ++ signature) w.db.media_uploads
                          m row in
                      absurd (ground arith)
                ]
              ]
      ]

-- A media upload is attached to a product only when it is ready, and the attached one is the row
-- with the product set.
pub attach_media_to_product-ok :
    (m a : MediaUpload) (product : Product) (w : World)
    → (attach_media_to_product m product w).0 ≡ ok a
    → (m.status ≡ ready) × (a ≡ attach product.id m)
unfolding attach_media_to_product
attach_media_to_product-ok m a product w h = ground arith
