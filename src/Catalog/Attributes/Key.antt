-- ===== src/Catalog/Attributes/Key.antt =====
-- The combination key of a variant's attribute values.
use be_py_eco.Errors.{Error}
use be_py_eco.World.{err, ok, World}
use be_py_eco.Prelude.{
  ℕ, zero, suc, ◌+◌, ◌*◌, ◌/◌, ◌≤◌, ◌<◌, ◌≡◌, refl, ap, ◌∙◌, ◌≢◌, true, false, List, [], ◌∷◌, ◌++◌,
  arith, Text, length,
}
use be_py_eco.Schema.{Variant, AttributeValue}
use be_py_eco.Common.Render.{hex, uuid_text, leb_text}
use be_py_eco.Catalog.Attributes.{
  max_key_length, set_variant_attributes, value_rows, insert_text, sort_texts, join_colon,
  value_ids, combination_key,
}

leb_text-total : (s t : Text) → leb_text s t ≡ false → leb_text t s ≡ true
unfolding leb_text
leb_text-total [] t h = absurd (ground arith)
leb_text-total (x ∷ s) [] h = refl
leb_text-total (x ∷ s) (y ∷ t) h = ground (arith, leb_text-total s t)

leb_text-antisym : (s t : Text) → leb_text s t ≡ true → leb_text t s ≡ true → s ≡ t
unfolding leb_text
leb_text-antisym [] [] h k = refl
leb_text-antisym [] (y ∷ t) h k = absurd (ground arith)
leb_text-antisym (x ∷ s) [] h k = absurd (ground arith)
leb_text-antisym (x ∷ s) (y ∷ t) h k = ground (arith, leb_text-antisym s t)

leb_text_trans : (s t u : Text) → leb_text s t ≡ true → leb_text t u ≡ true → leb_text s u ≡ true
unfolding leb_text
leb_text_trans [] t u h k = refl
leb_text_trans (x ∷ s) [] u h k = absurd (ground arith)
leb_text_trans (x ∷ s) (y ∷ t) [] h k = absurd (ground arith)
leb_text_trans (x ∷ s) (y ∷ t) (z ∷ u) h k = ground (arith, leb_text_trans s t u)

insert_text-swap :
    (s t : Text) (us : List Text)
    → insert_text s (insert_text t us) ≡ insert_text t (insert_text s us)
unfolding insert_text
insert_text-swap s t [] = ground (arith, leb_text-total s t, leb_text-antisym s t)
insert_text-swap s t (u ∷ us) = ground (
  arith,
  leb_text-total s t,
  leb_text-total t s,
  leb_text-antisym s t,
  leb_text_trans s t u,
  leb_text_trans t s u,
  insert_text-swap s t us,
)

-- one list is a rearrangement of another
pub data Rearranged : List AttributeValue → List AttributeValue → Type 0 where
  same : (vs : List AttributeValue) → Rearranged vs vs
  keep :
      (v : AttributeValue) (vs us : List AttributeValue)
      → Rearranged vs us
      → Rearranged (v ∷ vs) (v ∷ us)
  swap : (v u : AttributeValue) (vs : List AttributeValue) → Rearranged (v ∷ u ∷ vs) (u ∷ v ∷ vs)
  chain : (vs us ws : List AttributeValue) → Rearranged vs us → Rearranged us ws → Rearranged vs ws

sort_texts-Rearranged :
    (vs us : List AttributeValue)
    → Rearranged vs us
    → sort_texts (value_ids vs) ≡ sort_texts (value_ids us)
unfolding sort_texts
sort_texts-Rearranged _ _ (same vs) = refl
sort_texts-Rearranged _ _ (keep v vs us r) =
    ap (insert_text (uuid_text v.id)) (sort_texts-Rearranged vs us r)
sort_texts-Rearranged _ _ (swap v u vs) = insert_text-swap _ _ (sort_texts (value_ids vs))
sort_texts-Rearranged vs ws (chain _ us _ r s) =
    sort_texts-Rearranged vs us r ∙ sort_texts-Rearranged us ws s

-- The key does not depend on the order in which the values are given.
pub combination_key-Rearranged :
    (vs us : List AttributeValue) → Rearranged vs us → combination_key vs ≡ combination_key us
unfolding combination_key
combination_key-Rearranged vs us r = ap join_colon (sort_texts-Rearranged vs us r)

length-append : (s t : Text) → length (s ++ t) ≡ length s + length t
length-append [] t = ground arith
length-append (x ∷ s) t = ground (arith, length-append s t)

length-hex : (k n : ℕ) → length (hex k n) ≡ k
unfolding hex
length-hex zero n = refl
length-hex (suc k) n = rw (length-append, length-hex k (n / 16)) (omega arith)

length-uuid_text : (n : ℕ) → length (uuid_text n) ≡ 36
unfolding uuid_text
length-uuid_text n = refl

-- the length of the joined texts
joined : List Text → ℕ
joined [] = 0
joined (t ∷ ts) = suc (length t) + joined ts

joined-insert_text : (t : Text) (ts : List Text) → joined (insert_text t ts) ≡ joined (t ∷ ts)
unfolding joined insert_text
joined-insert_text t [] = refl
joined-insert_text t (u ∷ us) = ground (arith, joined-insert_text t us)

joined-sort_texts : (ts : List Text) → joined (sort_texts ts) ≡ joined ts
unfolding joined sort_texts
joined-sort_texts [] = refl
joined-sort_texts (t ∷ ts) =
    joined-insert_text t (sort_texts ts) ∙ ap (λ n. suc (length t) + n) (joined-sort_texts ts)

joined-value_ids : (vs : List AttributeValue) → joined (value_ids vs) ≡ 37 * length vs
unfolding joined
joined-value_ids [] = refl
joined-value_ids (v ∷ vs) = ground (arith, length-uuid_text v.id, joined-value_ids vs)

length-join_colon : (ts : List Text) → 0 < joined ts → suc (length (join_colon ts)) ≡ joined ts
unfolding join_colon joined
length-join_colon [] some_text = absurd (ground arith)
length-join_colon (t ∷ []) some_text = ground arith
length-join_colon (t ∷ u ∷ us) some_text = ground (
  arith,
  length-append t (58 ∷ join_colon (u ∷ us)),
  length-join_colon (u ∷ us) (unfold joined in ground arith),
)

-- The key of one or more values takes 36 characters for each of them and a colon between two.
pub length-combination_key :
    (vs : List AttributeValue) → 0 < length vs → suc (length (combination_key vs)) ≡ 37 * length vs
unfolding combination_key
length-combination_key vs some_value =
    let total = joined-sort_texts (value_ids vs) ∙ joined-value_ids vs in
    length-join_colon (sort_texts (value_ids vs)) (rw total (omega arith)) ∙ total

value_rows-db :
    (variant : ℕ) (vs : List AttributeValue) (w : World) → (value_rows variant vs w).1.db ≡ w.db
unfolding value_rows
value_rows-db variant [] w = refl
value_rows-db variant (v ∷ vs) w =
    ground (arith, value_rows-db variant vs (record w { ids = λ n. w.ids (suc n) }))

set_variant_attributes-long_key :
    (variant : Variant) (values : List AttributeValue) (w : World) (v : Variant)
    → max_key_length < length (combination_key values)
    → (set_variant_attributes variant values w).0 ≢ ok v
unfolding set_variant_attributes
set_variant_attributes-long_key variant values w v long h = ground arith

-- An assignment of seven or more attribute values does not succeed: the key does not fit in the
-- 255 characters of the column.
pub set_variant_attributes-too_many :
    (variant : Variant) (values : List AttributeValue) (w : World) (v : Variant)
    → 7 ≤ length values
    → (set_variant_attributes variant values w).0 ≢ ok v
set_variant_attributes-too_many variant values w v many =
    let size = length-combination_key values (omega arith) in
    set_variant_attributes-long_key variant values w v (omega arith)

-- A refused assignment leaves the database as it was.
set_variant_attributes_atomic :
    (variant : Variant) (values : List AttributeValue) (w : World) (e : Error)
    → (set_variant_attributes variant values w).0 ≡ err e
    → (set_variant_attributes variant values w).1.db ≡ w.db
unfolding set_variant_attributes
set_variant_attributes_atomic variant values w e h = ground arith
