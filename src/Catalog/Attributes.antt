-- ===== src/Catalog/Attributes.antt =====
-- src/modules/catalog/services/set_variant_attributes.py
pub mod Key
pub mod Distinct
use be_py_eco.Prelude.{
  ℕ, Bool, not, ◌&&◌, List, [], ◌∷◌, ◌++◌, ltb, ◌==◌, if◌then◌else◌, Text, eq_text, is_empty,
  length, exists_row, update_rows, delete_rows,
}
use be_py_eco.Errors.{
  catalog, failure, data_error, duplicate_attribute, duplicate_attribute_combination,
}
use be_py_eco.Schema.{Database, AttributeValue, Variant, VariantAttributeValue}
use be_py_eco.World.{Action, pure, reads, raise_if, modify, atomic, next_id, ◌>>=◌, ◌>>◌}
use be_py_eco.Common.Render.{uuid_text, leb_text}
use be_py_eco.Catalog.Products.{has_duplicate}

unfoldable pub insert_text : Text → List Text → List Text
insert_text t [] = t ∷ []
insert_text t (u ∷ us) = if leb_text t u then t ∷ u ∷ us else u ∷ insert_text t us

-- `sorted(…)` on texts
unfoldable pub sort_texts : List Text → List Text
unfolding insert_text
sort_texts [] = []
sort_texts (t ∷ ts) = insert_text t (sort_texts ts)

-- `":".join(…)`
unfoldable pub join_colon : List Text → Text
join_colon [] = []
join_colon (t ∷ []) = t
join_colon (t ∷ u ∷ us) = t ++ (58 ∷ join_colon (u ∷ us))

abbrev pub value_ids : List AttributeValue → List Text
value_ids [] = []
value_ids (v ∷ vs) = uuid_text v.id ∷ value_ids vs

abbrev pub attribute_ids : List AttributeValue → List ℕ
attribute_ids [] = []
attribute_ids (v ∷ vs) = v.attribute ∷ attribute_ids vs

-- `_combination_key`
unfoldable pub combination_key : List AttributeValue → Text
unfolding sort_texts join_colon
combination_key values = join_colon (sort_texts (value_ids values))

-- another variant of the same product with the key
abbrev pub has_combination : Variant → Text → Variant → Bool
has_combination variant key v =
    v.product == variant.product
    && eq_text v.attribute_combination_key key
    && not (v.id == variant.id)

unfoldable pub value_rows : ℕ → List AttributeValue → Action (List VariantAttributeValue)
value_rows variant [] = pure []
value_rows variant (v ∷ vs) = do
  id ← next_id
  rows ← value_rows variant vs
  pure (
      record { id = id; variant = variant; attribute = v.attribute; attribute_value = v.id } ∷ rows)

abbrev pub replace_values : ℕ → List VariantAttributeValue → Database → Database
replace_values variant rows db = record db {
  variant_attribute_values =
      delete_rows (λ r. r.variant == variant) db.variant_attribute_values ++ rows;
}

abbrev pub with_key : Text → Variant → Variant
with_key key v = record v { attribute_combination_key = key }

abbrev pub save_key : ℕ → Text → Database → Database
save_key id key db = record db {
  variants = update_rows (λ v. v.id == id) (with_key key) db.variants;
}

-- `attribute_combination_key = CharField(max_length=255)`
abbrev pub max_key_length : ℕ
max_key_length = 255

unfoldable pub set_variant_attributes : Variant → List AttributeValue → Action Variant
unfolding value_rows
set_variant_attributes variant values =
    let key = combination_key values in
    atomic (do
      raise_if (has_duplicate (attribute_ids values)) (catalog duplicate_attribute)
      conflict ← reads (λ db. exists_row (has_combination variant key) db.variants)
      raise_if (not (is_empty key) && conflict) (catalog duplicate_attribute_combination)
      rows ← value_rows variant.id values
      modify (replace_values variant.id rows)
      raise_if (ltb max_key_length (length key)) (failure data_error)
      modify (save_key variant.id key)
      pure (with_key key variant))
