-- ===== src/Catalog/Products.antt =====
-- src/modules/catalog/services/create_product.py and archive.py, and the guard of
-- models/no_hard_delete.py
use be_py_eco.Prelude.{
  ℕ, Bool, true, false, not, ◌||◌, Option, none, some, List, [], ◌∷◌, ◌++◌, ◌==◌, Text, exists_row,
  update_rows,
}
use be_py_eco.Errors.{
  catalog, failure, integrity_error, primary_category_not_in_categories, hard_delete_not_allowed,
}
use be_py_eco.Schema.{Database, Product, ProductStatus, draft, archived, ProductCategory, Variant}
use be_py_eco.World.{
  Action, pure, raise, raise_if, modify, now, next_id, insert_product, insert_variant, ◌>>=◌, ◌>>◌,
}

-- `category in categories`: models are equal by their primary keys
abbrev pub is_assigned : ℕ → List ℕ → Bool
is_assigned id categories = exists_row (λ c. c == id) categories

-- the rows of `bulk_create`, with their ids drawn in order
category_rows : ℕ → List ℕ → Action (List ProductCategory)
category_rows product [] = pure []
category_rows product (c ∷ cs) = do
  id ← next_id
  rows ← category_rows product cs
  pure (record { id = id; product = product; category = c } ∷ rows)

-- a category that is listed twice clashes with `unique_product_category`
unfoldable pub has_duplicate : List ℕ → Bool
has_duplicate [] = false
has_duplicate (c ∷ cs) = is_assigned c cs || has_duplicate cs

abbrev add_product_categories : List ProductCategory → Database → Database
add_product_categories rows db = record db { product_categories = db.product_categories ++ rows }

-- `categories or [primary_category]`
abbrev pub categories_or : ℕ → Option (List ℕ) → List ℕ
categories_or primary none = primary ∷ []
categories_or primary (some []) = primary ∷ []
categories_or primary (some (c ∷ cs)) = c ∷ cs

-- the two inserts are not under one transaction
unfoldable pub create_product : ℕ → Option (List ℕ) → Option ℕ → Action Product
unfolding category_rows insert_product has_duplicate
create_product primary categories brand = do
  let assigned = categories_or primary categories
  raise_if (not (is_assigned primary assigned)) (catalog primary_category_not_in_categories)
  id ← next_id
  at ← now
  product ← insert_product (record {
    id = id;
    created_at = at;
    status = draft;
    brand = brand;
    primary_category = primary;
  })
  rows ← category_rows product.id assigned
  raise_if (has_duplicate assigned) (failure integrity_error)
  modify (add_product_categories rows)
  pure product

unfoldable pub create_variant : ℕ → Text → ℕ → ℕ → Option Text → Action Variant
unfolding insert_variant
create_variant product sku base_price_vnd weight_grams barcode = do
  id ← next_id
  at ← now
  insert_variant (record {
    id = id;
    created_at = at;
    product = product;
    sku = sku;
    barcode = barcode;
    base_price_vnd = base_price_vnd;
    weight_grams = weight_grams;
    is_archived = false;
    attribute_combination_key = [];
  })

abbrev pub with_status : ProductStatus → Product → Product
with_status status p = record p { status = status }

abbrev pub save_status : ℕ → ProductStatus → Database → Database
save_status id status db = record db {
  products = update_rows (λ p. p.id == id) (with_status status) db.products;
}

unfoldable pub archive_product : Product → Action Product
archive_product product = do
  modify (save_status product.id archived)
  pure (with_status archived product)

abbrev pub archive : Variant → Variant
archive v = record v { is_archived = true }

unfoldable pub archive_variant : Variant → Action Variant
archive_variant variant = do
  modify (λ db. record db { variants = update_rows (λ v. v.id == variant.id) archive db.variants })
  pure (archive variant)

-- `delete()` of a product or a variant, and of a query set of them
unfoldable pub hard_delete : {A : Type 0} → A → Action (Unit {0})
hard_delete row = raise (catalog hard_delete_not_allowed)
