-- ===== src/Catalog/Storefront/Listing.antt =====
-- What the storefront lists.
use be_py_eco.Prelude.{
  ℕ, ◌≤◌, ◌≡◌, refl, ap, ◌∙◌, inl, inr, Bool, true, false, ◌&&◌, ◌==◌, List, [], ◌∷◌, map, arith,
  leb, Bool-cases, Text, length, filter_rows, exists_row, All, Unique,
}
use be_py_eco.Schema.{Database, Product, ProductStatus, active}
use be_py_eco.World.{World, ok}
use be_py_eco.Localization.{resolve_locale}
use be_py_eco.Catalog.Storefront.{
  is_active_status, serialize_product, insert_by_time, sort_by_time, serialize_all,
  product_list_view, product_detail_view, StorefrontProduct,
}

-- no product comes before an older one
abbrev pub SortedByTime : List Product → Type 0
SortedByTime [] = Unit
SortedByTime (p ∷ ps) = All (λ q. p.created_at ≤ q.created_at) ps × SortedByTime ps

-- how many products a condition holds of
abbrev pub count : (Product → Bool) → List Product → ℕ
count b ps = length (filter_rows b ps)

insert-count :
    (b : Product → Bool) (p : Product) (ps : List Product)
    → count b (insert_by_time p ps) ≡ count b (p ∷ ps)
unfolding insert_by_time filter_rows
insert-count b p [] = refl
insert-count b p (q ∷ qs) = ground (arith, insert-count b p qs)

sort-count : (b : Product → Bool) (ps : List Product) → count b (sort_by_time ps) ≡ count b ps
unfolding sort_by_time filter_rows
sort-count b [] = refl
sort-count b (p ∷ ps) = ground (arith, insert-count b p (sort_by_time ps), sort-count b ps)

module _ {κ} (P : Product → Type κ) where
  All-insert : (p : Product) (ps : List Product) → P p → All P ps → All P (insert_by_time p ps)
  unfolding insert_by_time
  All-insert p [] h a = (h, tt)
  All-insert p (q ∷ qs) h a = elim (Bool-cases (leb p.created_at q.created_at)) [
    | inl le ↦ rw le (h, a)
    | inr gt ↦ rw gt (a.0, All-insert p qs h a.1)
  ]

  All-sort : (ps : List Product) → All P ps → All P (sort_by_time ps)
  unfolding sort_by_time
  All-sort [] a = tt
  All-sort (p ∷ ps) a = All-insert p (sort_by_time ps) a.0 (All-sort ps a.1)

All-below :
    (s t : ℕ) (ps : List Product)
    → s ≤ t
    → All (λ q. t ≤ q.created_at) ps
    → All (λ q. s ≤ q.created_at) ps
All-below s t [] h a = tt
All-below s t (p ∷ ps) h a = (omega (arith, a.0), All-below s t ps h a.1)

insert-SortedByTime :
    (p : Product) (ps : List Product) → SortedByTime ps → SortedByTime (insert_by_time p ps)
unfolding insert_by_time
insert-SortedByTime p [] s = (tt, tt)
insert-SortedByTime p (q ∷ qs) s = elim (Bool-cases (leb p.created_at q.created_at)) [
  | inl le ↦ rw le ((ground arith, All-below p.created_at q.created_at qs (ground arith) s.0), s)
  | inr gt ↦ rw gt (
    All-insert (λ r. q.created_at ≤ r.created_at) p qs (ground arith) s.0,
    insert-SortedByTime p qs s.1,
  )
]

sort-SortedByTime : (ps : List Product) → SortedByTime (sort_by_time ps)
unfolding sort_by_time
sort-SortedByTime [] = tt
sort-SortedByTime (p ∷ ps) = insert-SortedByTime p (sort_by_time ps) (sort-SortedByTime ps)

-- a published product: its page is public
abbrev pub is_published : ProductStatus → Bool
is_published active = true
is_published _ = false

-- two rows of one product
abbrev pub same_product : Product → Product → Bool
same_product p q = q.id == p.id

-- what the page of the product answers, in the reader's locale: this, under some `Content-Language`
abbrev pub ShownOnItsPage : Text → World → StorefrontProduct → Type 0
ShownOnItsPage accept_language w item =
    (language : Text) × ((product_detail_view item.id accept_language w).0 ≡ ok (item, language))

count-published :
    (b : Product → Bool) (ps : List Product)
    → count b (filter_rows (λ p. is_active_status p.status) ps)
      ≡ count (λ p. is_published p.status && b p) ps
unfolding filter_rows
count-published b [] = refl
count-published b (p ∷ ps) = ground (arith, count-published b ps)

-- the query of its page finds a product that is active
abbrev OwnRow : List Product → Product → Type 0
OwnRow table p =
    is_active_status p.status ≡ true
    → filter_rows (λ r. r.id == p.id && is_active_status r.status) table ≡ p ∷ []

no_other_row :
    (p : Product) (ps : List Product)
    → exists_row (same_product p) ps ≡ false
    → filter_rows (λ r. r.id == p.id && is_active_status r.status) ps ≡ []
unfolding filter_rows exists_row
no_other_row p [] h = refl
no_other_row p (q ∷ ps) h = ground (arith, no_other_row p ps)

OwnRow-skip :
    (p q : Product) (table : List Product)
    → (q.id == p.id) ≡ false
    → OwnRow table q
    → OwnRow (p ∷ table) q
unfolding filter_rows
OwnRow-skip p q table h own a = let found = own a in ground arith

OwnRow-below :
    (p : Product) (table ps : List Product)
    → exists_row (same_product p) ps ≡ false
    → All (OwnRow table) ps
    → All (OwnRow (p ∷ table)) ps
unfolding exists_row
OwnRow-below p table [] h a = tt
OwnRow-below p table (q ∷ ps) h a =
    (OwnRow-skip p q table (ground arith) a.0, OwnRow-below p table ps (ground arith) a.1)

OwnRow-own :
    (p : Product) (ps : List Product) → exists_row (same_product p) ps ≡ false → OwnRow (p ∷ ps) p
unfolding filter_rows
OwnRow-own p ps h a = ground (arith, no_other_row p ps)

OwnRow-All : (ps : List Product) → Unique same_product ps → All (OwnRow ps) ps
OwnRow-All [] u = tt
OwnRow-All (p ∷ ps) u = (OwnRow-own p ps u.0, OwnRow-below p ps ps u.0 (OwnRow-All ps u.1))

All-filter :
    (P : Product → Type 0) (c : Product → Bool) (ps : List Product)
    → All (λ p. c p ≡ true → P p) ps
    → All P (filter_rows c ps)
unfolding filter_rows
All-filter P c [] a = tt
All-filter P c (p ∷ ps) a = elim (Bool-cases (c p)) [
  | inl holds ↦ rw holds (a.0 holds, All-filter P c ps a.1)
  | inr fails ↦ rw fails (All-filter P c ps a.1)
]

module _ (accept_language : Text) (w : World) where
  -- the item of a product whose page is found
  page_of :
      (p : Product)
      → filter_rows (λ r. r.id == p.id && is_active_status r.status) w.db.products ≡ p ∷ []
      → ShownOnItsPage accept_language w
          (serialize_product p (resolve_locale accept_language) w.db).0
  unfolding product_detail_view serialize_product
  page_of p found = ((serialize_product p (resolve_locale accept_language) w.db).1, rw found refl)

  items_shown :
      (ps : List Product) (last : Text)
      → All
          (λ p. filter_rows (λ r. r.id == p.id && is_active_status r.status) w.db.products ≡ p ∷ [])
          ps
      → All
          (ShownOnItsPage accept_language w)
          (serialize_all ps (resolve_locale accept_language) last w.db).0
  unfolding serialize_all
  items_shown [] last a = tt
  items_shown (p ∷ ps) last a = (
    page_of p a.0,
    items_shown ps (serialize_product p (resolve_locale accept_language) w.db).1 a.1,
  )

items-ids :
    (ps : List Product) (locale last : Text) (db : Database)
    → map (λ i. i.id) (serialize_all ps locale last db).0 ≡ map (λ p. p.id) ps
unfolding serialize_all serialize_product
items-ids [] locale last db = refl
items-ids (p ∷ ps) locale last db =
    ap (λ ids. p.id ∷ ids) (items-ids ps locale (serialize_product p locale db).1 db)

-- The storefront's list is that of the published products, each as often as it is in the table and
-- the older ones first; each item is what the page of its product answers to the same reader, if no
-- two products share an id.
pub product_list_view_lem :
    (accept_language : Text) (w : World)
    → Unique same_product w.db.products
    → (items : List StorefrontProduct) × (last : Text) × (listed : List Product)
      × (product_list_view accept_language w ≡ (ok (items, last), w))
      × (map (λ i. i.id) items ≡ map (λ p. p.id) listed)
      × SortedByTime listed
      × ((b : Product → Bool)
          → count b listed ≡ count (λ p. is_published p.status && b p) w.db.products)
      × All (ShownOnItsPage accept_language w) items
unfolding product_list_view
product_list_view_lem accept_language w u =
    let ps = filter_rows (λ (p : Product). is_active_status p.status) w.db.products in
    let locale = resolve_locale accept_language in
    let all = serialize_all (sort_by_time ps) locale locale w.db in
    let found =
      All-sort
        (λ p. filter_rows (λ r. r.id == p.id && is_active_status r.status) w.db.products ≡ p ∷ [])
        ps
        (All-filter
          (λ p. filter_rows (λ r. r.id == p.id && is_active_status r.status) w.db.products ≡ p ∷ [])
          (λ p. is_active_status p.status) w.db.products (OwnRow-All w.db.products u)) in
    (
      all.0,
      all.1,
      sort_by_time ps,
      refl,
      items-ids (sort_by_time ps) locale locale w.db,
      sort-SortedByTime ps,
      λ b. sort-count b ps ∙ count-published b w.db.products,
      items_shown accept_language w (sort_by_time ps) locale found,
    )
