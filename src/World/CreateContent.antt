-- ===== src/World/CreateContent.antt =====
-- `objects.create` for the models of the catalog, of translations and of media: the database refuses a row that clashes with another one on
-- the primary key or on a unique constraint, and a text that is longer than its column.
use be_py_eco.Prelude.{
  ℕ, Bool, true, false, ◌&&◌, ◌||◌, Option, none, some, [], ◌∷◌, ◌++◌, ltb, ◌==◌, if◌then◌else◌,
  Text, eq_text, length, exists_row,
}
use be_py_eco.Errors.{failure, integrity_error, data_error}
use be_py_eco.Schema.{
  Category, Product, Variant, ContentType, category_type, product_type, brand_type, attribute_type,
  attribute_value_type, TranslationEntry, MediaUpload,
}
use be_py_eco.World.Monad.{Action, ok, err}

unfoldable pub insert_category : Category → Action Category
insert_category c w =
    if exists_row (λ other. c.id == other.id) w.db.categories
    then (err (failure integrity_error), w)
    else (ok c, record w { db = record w.db { categories = w.db.categories ++ c ∷ [] } })

unfoldable pub insert_product : Product → Action Product
insert_product p w =
    if exists_row (λ other. p.id == other.id) w.db.products
    then (err (failure integrity_error), w)
    else (ok p, record w { db = record w.db { products = w.db.products ++ p ∷ [] } })

-- the unique columns of a variant; two variants without a barcode do not clash
abbrev same_barcode : Option Text → Option Text → Bool
same_barcode none b = false
same_barcode (some a) none = false
same_barcode (some a) (some b) = eq_text a b

abbrev pub clash_variant : Variant → Variant → Bool
clash_variant a b = a.id == b.id || eq_text a.sku b.sku || same_barcode a.barcode b.barcode

-- the greatest value of a `PositiveIntegerField`
abbrev pub max_integer : ℕ
max_integer = 2147483647

unfoldable pub insert_variant : Variant → Action Variant
insert_variant v w =
    if ltb max_integer v.base_price_vnd || ltb max_integer v.weight_grams || ltb 64 (length v.sku)
    then (err (failure data_error), w)
    else if exists_row (clash_variant v) w.db.variants
    then (err (failure integrity_error), w)
    else (ok v, record w { db = record w.db { variants = w.db.variants ++ v ∷ [] } })

abbrev pub eq_content_type : ContentType → ContentType → Bool
eq_content_type category_type category_type = true
eq_content_type product_type product_type = true
eq_content_type brand_type brand_type = true
eq_content_type attribute_type attribute_type = true
eq_content_type attribute_value_type attribute_value_type = true
eq_content_type _ _ = false

abbrev pub same_translation : TranslationEntry → TranslationEntry → Bool
same_translation a b =
    eq_content_type a.content_type b.content_type
    && a.object_id == b.object_id
    && eq_text a.locale b.locale
    && eq_text a.field_name b.field_name

abbrev pub clash_translation : TranslationEntry → TranslationEntry → Bool
clash_translation a b = a.id == b.id || same_translation a b

unfoldable pub insert_translation : TranslationEntry → Action TranslationEntry
insert_translation e w =
    if exists_row (clash_translation e) w.db.translations
    then (err (failure integrity_error), w)
    else (ok e, record w { db = record w.db { translations = w.db.translations ++ e ∷ [] } })

abbrev pub clash_media_upload : MediaUpload → MediaUpload → Bool
clash_media_upload a b = a.id == b.id || eq_text a.storage_key b.storage_key

unfoldable pub insert_media_upload : MediaUpload → Action MediaUpload
insert_media_upload m w =
    if exists_row (clash_media_upload m) w.db.media_uploads
    then (err (failure integrity_error), w)
    else (ok m, record w { db = record w.db { media_uploads = w.db.media_uploads ++ m ∷ [] } })
