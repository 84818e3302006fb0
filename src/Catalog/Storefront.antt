-- ===== src/Catalog/Storefront.antt =====
-- src/modules/catalog/api/storefront/views.py: the published products, in a locale
pub mod Published
pub mod Listing
use be_py_eco.Prelude.{
  ℕ, Bool, true, false, not, ◌&&◌, Option, none, some, List, [], ◌∷◌, ltb, leb, ◌==◌, if◌then◌else◌,
  Text, codes, is_empty, filter_rows,
}
use be_py_eco.Errors.{catalog, product_not_found}
use be_py_eco.Schema.{
  Database, Product, ProductStatus, draft, active, inactive, archived, Variant, product_type,
}
use be_py_eco.World.{Action, reads, the_row, ◌>>=◌, ◌>>◌}
use be_py_eco.Localization.{default_locale, resolve_locale}
use be_py_eco.Translation.{get_localized_field}

abbrev pub is_active_status : ProductStatus → Bool
is_active_status draft = false
is_active_status active = true
is_active_status inactive = false
is_active_status archived = false

-- `.order_by("created_at").first()`
abbrev earlier : Variant → Option Variant → Variant
earlier v none = v
earlier v (some u) = if ltb u.created_at v.created_at then u else v

unfoldable pub earliest : List Variant → Option Variant
earliest [] = none
earliest (v ∷ vs) = some (earlier v (earliest vs))

pub record StorefrontProduct : Type 0 where
  pub id : ℕ
  pub name : Option Text
  pub is_name_fallback : Bool
  pub base_price_vnd : Option ℕ

abbrev price_of : Option Variant → Option ℕ
price_of none = none
price_of (some v) = some v.base_price_vnd

-- `name.locale or locale`
abbrev locale_or : Option Text → Text → Text
locale_or none locale = locale
locale_or (some t) locale = if is_empty t then locale else t

unfoldable pub serialize_product : Product → Text → Database → StorefrontProduct × Text
unfolding earliest
serialize_product product locale db =
    let name =
      get_localized_field product_type product.id (codes "name") locale default_locale db in
    let first_variant =
      earliest (filter_rows (λ v. v.product == product.id && not v.is_archived) db.variants) in
    (
      record {
        id = product.id;
        name = name.value;
        is_name_fallback = name.is_fallback;
        base_price_vnd = price_of first_variant;
      },
      locale_or name.locale locale,
    )

-- `order_by("created_at")`
unfoldable pub insert_by_time : Product → List Product → List Product
insert_by_time p [] = p ∷ []
insert_by_time p (q ∷ qs) =
    if leb p.created_at q.created_at then p ∷ q ∷ qs else q ∷ insert_by_time p qs

unfoldable pub sort_by_time : List Product → List Product
unfolding insert_by_time
sort_by_time [] = []
sort_by_time (p ∷ ps) = insert_by_time p (sort_by_time ps)

-- the loop over the products; `response_locale` is that of the last one
unfoldable pub serialize_all : List Product → Text → Text → Database → List StorefrontProduct × Text
serialize_all [] locale response_locale db = ([], response_locale)
serialize_all (p ∷ ps) locale response_locale db =
    let (item, item_locale) = serialize_product p locale db in
    let (items, last_locale) = serialize_all ps locale item_locale db in (item ∷ items, last_locale)

-- `ProductListView.get`: the data and the `Content-Language`
unfoldable pub product_list_view : Text → Action (List StorefrontProduct × Text)
unfolding serialize_all sort_by_time
product_list_view accept_language = do
  products ← reads (λ db. filter_rows (λ p. is_active_status p.status) db.products)
  let locale = resolve_locale accept_language
  reads (serialize_all (sort_by_time products) locale locale)

-- `ProductDetailView.get`
unfoldable pub product_detail_view : ℕ → Text → Action (StorefrontProduct × Text)
product_detail_view product_id accept_language = do
  rows ←
      reads (λ db. filter_rows (λ p. p.id == product_id && is_active_status p.status) db.products)
  product ← the_row rows (catalog product_not_found)
  reads (serialize_product product (resolve_locale accept_language))
