-- ===== src/Catalog/Storefront/Published.antt =====
-- Which products a visitor can open.
use be_py_eco.Prelude.{
  ℕ, ◌≡◌, refl, ap, ◌∙◌, Bool, [], ◌∷◌, arith, ◌==◌, if◌then◌else◌, Text, filter_rows, update_rows,
}
use be_py_eco.Prelude.Queries.{filter-one-holds, filter_and-one, filter-update, update_one}
use be_py_eco.Errors.{catalog, product_not_found}
use be_py_eco.Schema.{ProductStatus, Database, Product, active, archived}
use be_py_eco.World.{World, ok, err}
use be_py_eco.Localization.{resolve_locale}
use be_py_eco.Catalog.Products.{with_status, save_status, archive_product}
use be_py_eco.Catalog.Publish.{publish_product}
use be_py_eco.Catalog.Publish.Preconditions.{publish_product-ok}
use be_py_eco.Catalog.Storefront.{is_active_status, serialize_product, product_detail_view}

-- The page of a product answers exactly for an active one; any other status is a product that is
-- not found.
pub product_detail_view-row :
    (id : ℕ) (accept_language : Text) (w : World) (p : Product)
    → filter_rows (λ r. r.id == id) w.db.products ≡ p ∷ []
    → (product_detail_view id accept_language w).0 ≡ (
        if is_active_status p.status
        then ok (serialize_product p (resolve_locale accept_language) w.db)
        else err (catalog product_not_found))
unfolding product_detail_view
product_detail_view-row id accept_language w p row =
    ground
      (arith, filter_and-one (λ r. r.id == id) (λ r. is_active_status r.status) w.db.products p row)

saved-row :
    (id : ℕ) (status : ProductStatus) (db : Database) (p : Product)
    → filter_rows (λ r. r.id == id) db.products ≡ p ∷ []
    → filter_rows (λ r. r.id == id) (save_status id status db).products ≡ with_status status p ∷ []
saved-row id status db p row =
    filter-update (λ r. r.id == id) (λ r. r.id == id) (with_status status) db.products (λ r. refl)
    ∙ ap (update_rows (λ r. r.id == id) (with_status status)) row
    ∙ update_one (λ r. r.id == id) (with_status status) p
        (filter-one-holds (λ r. r.id == id) db.products p row)

-- After a publication that succeeds, the page of the product, whose id is in the table once,
-- answers with the row made active.
publish-then-open :
    (has_ready_media : Product → Database → Bool) (product published row : Product)
    (accept_language : Text) (w : World)
    → filter_rows (λ r. r.id == product.id) w.db.products ≡ row ∷ []
    → (publish_product has_ready_media product w).0 ≡ ok published
    → (product_detail_view product.id accept_language
        (publish_product has_ready_media product w).1).0
      ≡ ok (
          serialize_product
            (with_status active row)
            (resolve_locale accept_language)
            (publish_product has_ready_media product w).1.db)
publish-then-open has_ready_media product published row accept_language w found h =
    let made = publish_product-ok has_ready_media product w published h in
    let now_row : filter_rows (λ r. r.id == product.id)
          (publish_product has_ready_media product w).1.db.products
        ≡ with_status active row ∷ [] =
      rw (made.4) (saved-row product.id active w.db row found) in
    product_detail_view-row product.id accept_language (publish_product has_ready_media product w).1
      (with_status active row) now_row

-- After a product, whose id is in the table once, is archived, its page is not found, and its row
-- is kept as archived.
archive-then-open :
    (product row archived_product : Product) (accept_language : Text) (w : World)
    → filter_rows (λ r. r.id == product.id) w.db.products ≡ row ∷ []
    → (archive_product product w).0 ≡ ok archived_product
    → ((product_detail_view product.id accept_language (archive_product product w).1).0
        ≡ err (catalog product_not_found))
      × (filter_rows (λ r. r.id == product.id) (archive_product product w).1.db.products
          ≡ with_status archived row ∷ [])
unfolding archive_product
archive-then-open product row archived_product accept_language w found h =
    let now_row = saved-row product.id archived w.db row found in
    (
      product_detail_view-row product.id accept_language (archive_product product w).1
          (with_status archived row) now_row,
      now_row,
    )
