-- ===== src/Catalog/Publish/Preconditions.antt =====
-- When a product is published, and what that changes.
use be_py_eco.Prelude.{◌≡◌, Bool, true, none, [], ◌∷◌, ◌++◌, arith, codes}
use be_py_eco.Errors.{Error}
use be_py_eco.Schema.{Database, Product, active, str, obj, end, field}
use be_py_eco.World.{World, ok, err}
use be_py_eco.Common.Render.{uuid_text}
use be_py_eco.Common.Outbox.{emit_event}
use be_py_eco.Catalog.Products.{with_status, save_status}
use be_py_eco.Catalog.Publish.{
  product_published_event, has_complete_default_locale_content, has_sellable_variant,
  publish_product,
}

module _ (has_ready_media : Product → Database → Bool) (product : Product) (w : World) where
  -- A failed publication changes nothing in the database.
  publish_product-failed :
      (e : Error)
      → (publish_product has_ready_media product w).0 ≡ err e
      → (publish_product has_ready_media product w).1.db ≡ w.db
  unfolding publish_product emit_event
  publish_product-failed e h = ground arith

  -- A publication that succeeds met the three preconditions; it makes the product active and adds
  -- one event that names it, and nothing else changes in the database.
  pub publish_product-ok :
      (p : Product)
      → (publish_product has_ready_media product w).0 ≡ ok p
      → (has_complete_default_locale_content product w.db ≡ true)
        × (has_sellable_variant product w.db ≡ true)
        × (has_ready_media product w.db ≡ true)
        × (p ≡ with_status active product)
        × ((publish_product has_ready_media product w).1.db
            ≡ record (save_status product.id active w.db) {
              outbox =
                  w.db.outbox
                  ++ record {
                    id = w.ids 0;
                    event_type = product_published_event;
                    payload = obj (field (codes "product_id") (str (uuid_text product.id)) end);
                    dispatched_at = none;
                  }
                    ∷ [];
            })
  unfolding publish_product emit_event
  publish_product-ok p h = ground arith
