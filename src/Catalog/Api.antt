-- ===== src/Catalog/Api.antt =====
-- src/modules/catalog/api: the endpoints of the storefront and of the administration. The
-- storefront's views are open to all, and yet authenticate: they keep the default authentication.
pub mod Access
use be_py_eco.Prelude.{ℕ, Option, none, some, List, [], ◌∷◌, ◌==◌, Text, codes, filter_rows}
use be_py_eco.Errors.{catalog, category_not_found}
use be_py_eco.Schema.{
  Category, ProductStatus, draft, active, inactive, archived, category_type, Json, null, bool, num,
  str, arr, obj, Items, nil, cons, end, field,
}
use be_py_eco.World.{Action, pure, reads, the_row, ◌>>=◌, ◌>>◌}
use be_py_eco.Common.Idempotency.{Response}
use be_py_eco.Common.Render.{uuid_text}
use be_py_eco.Common.Http.{Request, authenticate, staff_only, data_response}
use be_py_eco.Localization.{default_locale}
use be_py_eco.Translation.{LocalizedField, get_localized_field}
use be_py_eco.Catalog.Publish.{product_publish_view}
use be_py_eco.Catalog.Storefront.{StorefrontProduct, product_list_view, product_detail_view}

abbrev pub text_or_null : Option Text → Json
text_or_null none = null
text_or_null (some t) = str t

abbrev pub num_or_null : Option ℕ → Json
num_or_null none = null
num_or_null (some n) = num n

abbrev pub id_or_null : Option ℕ → Json
id_or_null none = null
id_or_null (some id) = str (uuid_text id)

abbrev pub product_representation : StorefrontProduct → Json
product_representation p = obj (
    field (codes "id") (str (uuid_text p.id)) (
      field (codes "name") (text_or_null p.name) (
        field (codes "is_name_fallback") (bool p.is_name_fallback)
          (field (codes "base_price_vnd") (num_or_null p.base_price_vnd) end))))

unfoldable pub product_items : List StorefrontProduct → Items
product_items [] = nil
product_items (p ∷ ps) = cons (product_representation p) (product_items ps)

-- `ProductListView.get` with the header `Accept-Language`: the response, and its `Content-Language`
unfoldable pub product_list_get : Text → Request → Action (Response × Text)
unfolding product_items
product_list_get accept_language request = do
  authenticate request.credentials
  found ← product_list_view accept_language
  pure (data_response 200 (arr (product_items found.0)) request, found.1)

-- `ProductDetailView.get`
unfoldable pub product_detail_get : ℕ → Text → Request → Action (Response × Text)
product_detail_get product_id accept_language request = do
  authenticate request.credentials
  found ← product_detail_view product_id accept_language
  pure (data_response 200 (product_representation found.0) request, found.1)

abbrev localized_representation : LocalizedField → Json
localized_representation f = obj (
    field (codes "value") (text_or_null f.value) (
      field (codes "locale") (text_or_null f.locale)
        (field (codes "is_fallback") (bool f.is_fallback) end)))

abbrev pub category_representation : Category → LocalizedField → Json
category_representation c name = obj (
    field (codes "id") (str (uuid_text c.id)) (
      field (codes "parent_id") (id_or_null c.parent)
        (field (codes "name") (localized_representation name) end)))

-- `request.query_params.get("locale", DEFAULT_LOCALE)`
abbrev locale_param : Option Text → Text
locale_param none = default_locale
locale_param (some locale) = locale

-- `CategoryDetailView.get`
unfoldable pub category_detail_get : ℕ → Option Text → Request → Action Response
unfolding staff_only
category_detail_get category_id locale request = do
  staff_only request
  rows ← reads (λ db. filter_rows (λ c. c.id == category_id) db.categories)
  category ← the_row rows (catalog category_not_found)
  name ← reads (
      get_localized_field category_type category.id (codes "name") (locale_param locale)
        default_locale)
  pure (data_response 200 (category_representation category name) request)

abbrev status_text : ProductStatus → Text
status_text draft = codes "draft"
status_text active = codes "active"
status_text inactive = codes "inactive"
status_text archived = codes "archived"

-- `ProductPublishView.post`
unfoldable pub product_publish_post : ℕ → Request → Action Response
unfolding staff_only
product_publish_post product_id request = do
  staff_only request
  product ← product_publish_view product_id
  pure (
      data_response 200
        (obj (
          field (codes "id") (str (uuid_text product.id))
            (field (codes "status") (str (status_text product.status)) end)))
        request)
