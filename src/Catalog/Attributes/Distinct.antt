-- ===== src/Catalog/Attributes/Distinct.antt =====
-- No two variants of a product have the same combination of attribute values.
use be_py_eco.Prelude.{
  ℕ, suc, ◌≡◌, refl, inl, inr, Bool, true, false, not, ◌&&◌, ◌||◌, List, [], ◌∷◌, arith, ◌==◌, Text,
  eq_text, eq_text_iff, is_empty, exists_row, update_rows, Unique,
}
use be_py_eco.Schema.{Variant, Database, AttributeValue}
use be_py_eco.Errors.{Error}
use be_py_eco.World.{World, ok, err, Result-cases}
use be_py_eco.Prelude.Queries.{Unique-update}
use be_py_eco.Catalog.Attributes.{
  combination_key, has_combination, value_rows, with_key, set_variant_attributes,
}

-- the same row, or two of one product with one combination that is not empty
abbrev pub same_combination : Variant → Variant → Bool
same_combination a b =
    a.id == b.id
    || (a.product == b.product
        && eq_text a.attribute_combination_key b.attribute_combination_key
        && not (is_empty a.attribute_combination_key))

abbrev pub DistinctCombinations : Database → Type 0
DistinctCombinations db = Unique same_combination db.variants

same_combination_comm : (a b : Variant) → same_combination a b ≡ same_combination b a
same_combination_comm a b =
    let there = eq_text_iff a.attribute_combination_key b.attribute_combination_key in
    let back = eq_text_iff b.attribute_combination_key a.attribute_combination_key in
    ground (arith, there, back)

module _ (variant : Variant) (key : Text) where
  -- the rows that are saved, and those that have the combination already
  abbrev is_saved : Variant → Bool
  is_saved v = v.id == variant.id && v.product == variant.product

  abbrev has_key : Variant → Bool
  has_key v =
      v.product == variant.product && eq_text v.attribute_combination_key key && not (is_empty key)

  update-is_saved :
      (rows : List Variant)
      → exists_row (λ v. v.id == variant.id && not (v.product == variant.product)) rows ≡ false
      → update_rows (λ v. v.id == variant.id) (with_key key) rows
        ≡ update_rows is_saved (with_key key) rows
  unfolding exists_row update_rows
  update-is_saved [] h = refl
  update-is_saved (r ∷ rows) h = ground (arith, update-is_saved rows)

  free_key :
      (a b : Variant)
      → is_saved a ≡ true
      → is_saved b ≡ false
      → same_combination a b ≡ false
      → has_key b ≡ false
      → same_combination (with_key key a) b ≡ false
  free_key a b p q apart free = ground (
    arith,
    eq_text_iff key b.attribute_combination_key,
    eq_text_iff b.attribute_combination_key key,
  )

  no_other :
      (rows : List Variant)
      → (not (is_empty key) && exists_row (has_combination variant key) rows) ≡ false
      → exists_row (λ b. has_key b && not (is_saved b)) rows ≡ false
  unfolding exists_row
  no_other [] h = refl
  no_other (r ∷ rows) h = ground (arith, no_other rows)

  saved-DistinctCombinations :
      (rows : List Variant)
      → exists_row (λ v. v.id == variant.id && not (v.product == variant.product)) rows ≡ false
      → (not (is_empty key) && exists_row (has_combination variant key) rows) ≡ false
      → Unique same_combination rows
      → Unique same_combination (update_rows (λ v. v.id == variant.id) (with_key key) rows)
  saved-DistinctCombinations rows own guard u = rw (update-is_saved rows own) (
      Unique-update same_combination is_saved has_key (with_key key) same_combination_comm
        (λ a b p q. ground arith) free_key rows (no_other rows guard) u)

value_rows-db :
    (id : ℕ) (values : List AttributeValue) (w : World) → (value_rows id values w).1.db ≡ w.db
unfolding value_rows
value_rows-db id [] w = refl
value_rows-db id (v ∷ vs) w =
    ground (arith, value_rows-db id vs (record w { ids = λ n. w.ids (suc n) }))

module _ (variant : Variant) (values : List AttributeValue) (w : World) where
  saved_variants :
      (v : Variant)
      → (set_variant_attributes variant values w).0 ≡ ok v
      → ((not (is_empty (combination_key values))
            && exists_row (has_combination variant (combination_key values)) w.db.variants)
          ≡ false)
        × ((set_variant_attributes variant values w).1.db.variants
            ≡ update_rows
                (λ r. r.id == variant.id)
                (with_key (combination_key values))
                w.db.variants)
  unfolding set_variant_attributes
  saved_variants v h = (ground arith, ground (arith, value_rows-db variant.id values w))

  refused_variants :
      (e : Error)
      → (set_variant_attributes variant values w).0 ≡ err e
      → (set_variant_attributes variant values w).1.db ≡ w.db
  unfolding set_variant_attributes
  refused_variants e h = ground arith

  -- No two variants of a product have the same combination of attribute values, unless it is empty,
  -- after an assignment, successful or refused, if none did before and the row of the variant
  -- is of the product that the caller's object says.
  pub set_variant_attributes-DistinctCombinations :
      exists_row (λ v. v.id == variant.id && not (v.product == variant.product)) w.db.variants
        ≡ false
      → DistinctCombinations w.db
      → DistinctCombinations (set_variant_attributes variant values w).1.db
  set_variant_attributes-DistinctCombinations own u =
      elim (Result-cases (set_variant_attributes variant values w).0) [
        | inl (v, h) ↦
            let (guard, saved) = saved_variants v h in
            rw saved (
              saved-DistinctCombinations variant (combination_key values) w.db.variants own guard u)
        | inr (e, h) ↦ rw (refused_variants e h) u
      ]
