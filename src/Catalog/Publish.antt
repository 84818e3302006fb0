-- ===== src/Catalog/Publish.antt =====
-- src/modules/catalog/services/publish_product.py and the admin view that calls it
pub mod Preconditions
use be_py_eco.Prelude.{
  ℕ, Bool, true, false, not, ◌&&◌, List, [], ◌∷◌, ◌==◌, eq_some, Text, codes, eq_text, filter_rows,
  exists_row,
}
use be_py_eco.Errors.{
  catalog, incomplete_default_locale_content, no_sellable_variant, no_ready_media,
  product_not_found,
}
use be_py_eco.Schema.{
  Database, Product, active, MediaUploadStatus, pending, ready, rejected, TranslationEntry,
  product_type, str, obj, end, field,
}
use be_py_eco.World.{Action, pure, reads, the_row, raise_if, modify, atomic, ◌>>=◌, ◌>>◌}
use be_py_eco.Common.Render.{uuid_text}
use be_py_eco.Common.Outbox.{emit_event}
use be_py_eco.Catalog.Products.{with_status, save_status}
use be_py_eco.Translation.{entries_for_entity}
use be_py_eco.Localization.{default_locale}

abbrev pub product_published_event : Text
product_published_event = codes "catalog.ProductPublished"

abbrev pub required_translation_fields : List Text
required_translation_fields = codes "name" ∷ []

abbrev pub is_ready : MediaUploadStatus → Bool
is_ready pending = false
is_ready ready = true
is_ready rejected = false

-- `_default_has_ready_media`
unfoldable pub default_has_ready_media : Product → Database → Bool
default_has_ready_media product db =
    exists_row (λ m. eq_some m.product product.id && is_ready m.status) db.media_uploads

abbrev pub is_approved_default : Text → TranslationEntry → Bool
is_approved_default name e =
    eq_text e.locale default_locale && e.is_approved && eq_text e.field_name name

unfoldable pub all_approved : List Text → List TranslationEntry → Bool
all_approved [] entries = true
all_approved (name ∷ names) entries =
    exists_row (is_approved_default name) entries && all_approved names entries

-- `_has_complete_default_locale_content`
unfoldable pub has_complete_default_locale_content : Product → Database → Bool
unfolding all_approved
has_complete_default_locale_content product db =
    all_approved required_translation_fields (entries_for_entity product_type product.id db)

-- `_has_sellable_variant`
unfoldable pub has_sellable_variant : Product → Database → Bool
has_sellable_variant product db =
    exists_row (λ v. v.product == product.id && not v.is_archived) db.variants

unfoldable pub publish_product : (Product → Database → Bool) → Product → Action Product
publish_product has_ready_media product = do
  complete ← reads (has_complete_default_locale_content product)
  raise_if (not complete) (catalog incomplete_default_locale_content)
  sellable ← reads (has_sellable_variant product)
  raise_if (not sellable) (catalog no_sellable_variant)
  with_media ← reads (has_ready_media product)
  raise_if (not with_media) (catalog no_ready_media)
  atomic (do
    modify (save_status product.id active)
    emit_event product_published_event
        (obj (field (codes "product_id") (str (uuid_text product.id)) end))
    pure (with_status active product))

-- `ProductPublishView.post`, up to the rendering of the response
unfoldable pub product_publish_view : ℕ → Action Product
product_publish_view product_id = do
  rows ← reads (λ db. filter_rows (λ p. p.id == product_id) db.products)
  product ← the_row rows (catalog product_not_found)
  publish_product default_has_ready_media product
