-- ===== src/Tests/Catalog.antt =====
-- Runs of the catalog services.
use be_py_eco.Common.Outbox.{emit_event}
use be_py_eco.Common.Render.{uuid_text}
use be_py_eco.Translation.{entries_for_entity}
use be_py_eco.Catalog.Publish.Preconditions.{publish_product-ok}
use be_py_eco.Catalog.Attributes.Key.{swap}
use be_py_eco.Catalog.Attributes.Key.{set_variant_attributes-too_many}
use be_py_eco.Catalog.Attributes.Key.{combination_key-Rearranged}
use be_py_eco.Catalog.Products.{save_status, with_status}
use be_py_eco.Catalog.Attributes.{set_variant_attributes}
use be_py_eco.Catalog.Attributes.Distinct.{
  DistinctCombinations, set_variant_attributes-DistinctCombinations,
}
use be_py_eco.Catalog.Attributes.{combination_key}
use be_py_eco.Catalog.Publish.{
  product_published_event, has_sellable_variant, has_complete_default_locale_content,
}
use be_py_eco.Catalog.Publish.{publish_product}
use be_py_eco.Prelude.{
  ◌≡◌, refl, ◌≢◌, ◌↔◌, inl, inr, Bool, true, false, none, some, List, [], ◌∷◌, arith, ◌==◌, ==_iff,
  Bool-cases, codes, eq_text, filter_rows, exists_row, first_row,
}
use be_py_eco.Errors.{catalog, category_cycle}
use be_py_eco.Schema.{
  end, str, field, obj, active, product_type, draft, AttributeValue, Variant, Product, Database,
  Category,
}
use be_py_eco.World.{ok, err}
use be_py_eco.Tests.Samples.{world, empty}
use be_py_eco.Catalog.CategoryTree.{category_of, reparent_category, walk_up, out_of_fuel}
use be_py_eco.Catalog.CategoryTree.Termination.{walk_up-enough_fuel}
use be_py_eco.Catalog.CategoryTree.Acyclic.{Forest, reparent_category-Forest, at_root, below}
use be_py_eco.Catalog.CategoryTree.Ancestors.{Ancestor}
use be_py_eco.Catalog.CategoryTree.Cycles.{reparent_category-cycle_iff}

-- a root with a child
abbrev top : Category
top = record { id = 1; parent = none }

abbrev child : Category
child = record { id = 2; parent = some 1 }

abbrev tree : Database
tree = record empty { categories = top ∷ child ∷ [] }

tree-Forest : Forest tree.categories
unfolding Forest category_of first_row
tree-Forest c here = elim (Bool-cases (c.id == 1)) [
  | inl one ↦ rw ((==_iff c.id 1).0 one) (at_root top refl refl)
  | inr other ↦ elim (Bool-cases (c.id == 2)) [
    | inl two ↦ rw ((==_iff c.id 2).0 two) (below child 1 refl refl (at_root top refl refl))
    | inr neither ↦ absurd (ground arith)
  ]
]

walk_up-enough_fuel_example : walk_up 3 tree.categories (9 ∷ []) child ≢ out_of_fuel
unfolding category_of first_row
walk_up-enough_fuel_example = walk_up-enough_fuel tree.categories (9 ∷ []) child refl

reparent_category-Forest_example :
    Forest (reparent_category child none (world tree)).1.db.categories
unfolding category_of first_row reparent_category
reparent_category-Forest_example =
    reparent_category-Forest child child (record { id = 2; parent = none }) none (world tree)
      tree-Forest tt refl refl

reparent_category-cycle_iff_example :
    ((reparent_category top (some child) (world tree)).0 ≡ err (catalog category_cycle))
    ↔ Ancestor tree.categories 1 2
unfolding category_of first_row
reparent_category-cycle_iff_example =
    reparent_category-cycle_iff top child (world tree) tree-Forest refl

abbrev shirt : Product
shirt = record { id = 1; created_at = 1; status = draft; brand = none; primary_category = 1 }

abbrev small : Variant
small = record {
  id = 2;
  created_at = 1;
  product = 1;
  sku = 1 ∷ [];
  barcode = none;
  base_price_vnd = 100;
  weight_grams = 1;
  is_archived = false;
  attribute_combination_key = [];
}

abbrev pub shop : Database
shop = record tree {
  products = shirt ∷ [];
  variants = small ∷ [];
  translations =
      record {
        id = 3;
        content_type = product_type;
        object_id = 1;
        locale = codes "vi";
        field_name = codes "name";
        value = 65 ∷ [];
        is_ai_generated = false;
        is_approved = true;
      }
      ∷ [];
}

abbrev with_media : Product → Database → Bool
with_media p db = true

publish_product-ok_example :
    (has_complete_default_locale_content shirt shop ≡ true)
    × (has_sellable_variant shirt shop ≡ true)
    × (true ≡ true)
    × (with_status active shirt ≡ with_status active shirt)
    × ((publish_product with_media shirt (world shop)).1.db ≡ record (save_status 1 active shop) {
      outbox =
          record {
            id = 100;
            event_type = product_published_event;
            payload = obj (field (codes "product_id") (str (uuid_text 1)) end);
            dispatched_at = none;
          }
          ∷ [];
    })
unfolding publish_product has_complete_default_locale_content exists_row entries_for_entity
    filter_rows eq_text has_sellable_variant emit_event
publish_product-ok_example =
    publish_product-ok with_media shirt (world shop) (with_status active shirt) refl

abbrev red : AttributeValue
red = record { id = 1; attribute = 1; code = 1 ∷ [] }

abbrev large : AttributeValue
large = record { id = 2; attribute = 2; code = 2 ∷ [] }

combination_key-Rearranged_example :
    combination_key (red ∷ large ∷ []) ≡ combination_key (large ∷ red ∷ [])
combination_key-Rearranged_example =
    combination_key-Rearranged (red ∷ large ∷ []) (large ∷ red ∷ []) (swap red large [])

-- seven values of seven attributes
abbrev seven : List AttributeValue
seven =
    red
    ∷ large
    ∷ record red { id = 3; attribute = 3 }
    ∷ record red { id = 4; attribute = 4 }
    ∷ record red { id = 5; attribute = 5 }
    ∷ record red { id = 6; attribute = 6 }
    ∷ record red { id = 7; attribute = 7 }
    ∷ []

set_variant_attributes-too_many_example :
    (set_variant_attributes small seven (world shop)).0 ≢ ok small
set_variant_attributes-too_many_example =
    set_variant_attributes-too_many small seven (world shop) small (omega arith)

abbrev other_variant : Variant
other_variant = record small { id = 999; sku = 76 ∷ []; attribute_combination_key = 88 ∷ [] }

abbrev two_variants : Database
two_variants = record shop { variants = small ∷ other_variant ∷ [] }

two_variants_distinct : DistinctCombinations two_variants
unfolding exists_row eq_text
two_variants_distinct = (refl, (refl, tt))

set_variant_attributes-DistinctCombinations_example :
    DistinctCombinations (set_variant_attributes small [] (world two_variants)).1.db
unfolding exists_row
set_variant_attributes-DistinctCombinations_example =
    set_variant_attributes-DistinctCombinations small [] (world two_variants) refl
      two_variants_distinct
