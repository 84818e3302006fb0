-- ===== src/Prelude/Queries.antt =====
-- Laws of the table queries.
use be_py_eco.Prelude.{
  ◌≡◌, refl, ◌⊎◌, inl, inr, Bool, true, false, not, ◌&&◌, ◌||◌, some, List, [], ◌∷◌, ◌++◌, arith,
  if◌then◌else◌, Bool-cases, filter_rows, exists_row, first_row, update_rows, Unique,
}

module _ {ℓ} {A : Type ℓ} where
  pub filter-update_none :
      (p q : A → Bool) (f : A → A) (rs : List A)
      → ((r : A) → p (f r) ≡ false)
      → filter_rows p rs ≡ []
      → filter_rows p (update_rows q f rs) ≡ []
  unfolding filter_rows update_rows
  filter-update_none p q f [] off e = refl
  filter-update_none p q f (r ∷ rs) off e = ground (arith, off r, filter-update_none p q f rs off)

  -- An update that takes the one row that a query finds out of the query's reach leaves nothing
  -- to be found.
  pub filter-update_one :
      (p q : A → Bool) (f : A → A) (rs : List A) (t : A)
      → ((r : A) → p (f r) ≡ false)
      → q t ≡ true
      → filter_rows p rs ≡ t ∷ []
      → filter_rows p (update_rows q f rs) ≡ []
  unfolding filter_rows update_rows
  filter-update_one p q f [] t off hit e = refl
  filter-update_one p q f (r ∷ rs) t off hit e =
      ground (arith, off r, filter-update_one p q f rs t off hit, filter-update_none p q f rs off)

-- The shape of what `objects.get` sees.
pub data Found {ℓ} {A : Type ℓ} (rows : List A) : Type ℓ where
  missing : rows ≡ [] → Found rows
  one : (a : A) → rows ≡ a ∷ [] → Found rows
  many : (a b : A) (rest : List A) → rows ≡ a ∷ b ∷ rest → Found rows

pub Found-cases {ℓ} : {A : Type ℓ} (rows : List A) → Found rows
Found-cases [] = missing refl
Found-cases (a ∷ []) = one a refl
Found-cases (a ∷ b ∷ rest) = many a b rest refl

module _ {ℓ} {A : Type ℓ} where
  pub exists-append :
      (p : A → Bool) (rs ss : List A)
      → exists_row p (rs ++ ss) ≡ (exists_row p rs || exists_row p ss)
  unfolding exists_row
  exists-append p [] ss = refl
  exists-append p (r ∷ rs) ss = ground (arith, exists-append p rs ss)

  pub filter-append :
      (p : A → Bool) (rs ss : List A)
      → filter_rows p (rs ++ ss) ≡ filter_rows p rs ++ filter_rows p ss
  unfolding filter_rows
  filter-append p [] ss = refl
  filter-append p (r ∷ rs) ss = ground (arith, filter-append p rs ss)

  pub filter-none : (p : A → Bool) (rs : List A) → exists_row p rs ≡ false → filter_rows p rs ≡ []
  unfolding filter_rows exists_row
  filter-none p [] h = refl
  filter-none p (r ∷ rs) h = ground (arith, filter-none p rs)

  -- An update that does not move a row into or out of a query updates what the query finds.
  pub filter-update :
      (p q : A → Bool) (f : A → A) (rs : List A)
      → ((r : A) → p (f r) ≡ p r)
      → filter_rows p (update_rows q f rs) ≡ update_rows q f (filter_rows p rs)
  unfolding filter_rows update_rows
  filter-update p q f [] h = refl
  filter-update p q f (r ∷ rs) h = ground (arith, h r, filter-update p q f rs h)

  pub exists-update :
      (p q : A → Bool) (f : A → A) (rs : List A)
      → ((r : A) → p (f r) ≡ p r)
      → exists_row p (update_rows q f rs) ≡ exists_row p rs
  unfolding exists_row update_rows
  exists-update p q f [] h = refl
  exists-update p q f (r ∷ rs) h = ground (arith, h r, exists-update p q f rs h)

  pub first-filter : (p : A → Bool) (rs : List A) (a : A) → first_row p rs ≡ some a → p a ≡ true
  unfolding first_row
  first-filter p [] a h = cc
  first-filter p (r ∷ rs) a h = ground (arith, first-filter p rs a)

  pub exists_congr :
      (p q : A → Bool) (rs : List A) → ((r : A) → p r ≡ q r) → exists_row p rs ≡ exists_row q rs
  unfolding exists_row
  exists_congr p q [] h = refl
  exists_congr p q (r ∷ rs) h = ground (arith, h r, exists_congr p q rs h)

  -- A unique table stays unique when a row is added that clashes with none.
  pub Unique-append :
      (clash : A → A → Bool) (r : A) (rs : List A)
      → ((a b : A) → clash a b ≡ clash b a)
      → exists_row (clash r) rs ≡ false
      → Unique clash rs
      → Unique clash (rs ++ r ∷ [])
  unfolding exists_row
  Unique-append clash r [] comm h u = ground arith
  Unique-append clash r (x ∷ rs) comm h u =
      ground (arith, comm x r, exists-append (clash x) rs (r ∷ []), Unique-append clash r rs comm)

  pub exists-filter :
      (c p : A → Bool) (rs : List A)
      → exists_row c rs ≡ false
      → exists_row c (filter_rows p rs) ≡ false
  unfolding exists_row filter_rows
  exists-filter c p [] h = refl
  exists-filter c p (r ∷ rs) h = ground (arith, exists-filter c p rs)

  -- what a query finds meets its condition
  pub filter-one-holds :
      (p : A → Bool) (rs : List A) (a : A) → filter_rows p rs ≡ a ∷ [] → p a ≡ true
  unfolding filter_rows
  filter-one-holds p [] a h = cc
  filter-one-holds p (r ∷ rs) a h = ground (arith, filter-one-holds p rs a)

  pub update_one :
      (q : A → Bool) (f : A → A) (a : A) → q a ≡ true → update_rows q f (a ∷ []) ≡ f a ∷ []
  unfolding update_rows
  update_one q f a h = ground arith

-- A row that is saved under its own identity keeps the table unique, when no other row has what
-- it now claims. `q` picks the row, `taken` is the claim.
module _ {ℓ} {A : Type ℓ} (clash : A → A → Bool) (q taken : A → Bool) (f : A → A)
    (comm : (a b : A) → clash a b ≡ clash b a)
    (only : (a b : A) → q a ≡ true → q b ≡ true → clash a b ≡ true)
    (free : (a b : A)
      → q a ≡ true
      → q b ≡ false
      → clash a b ≡ false
      → taken b ≡ false
      → clash (f a) b ≡ false) where
  saved-others :
      (r : A) (rs : List A)
      → q r ≡ true
      → exists_row (clash r) rs ≡ false
      → exists_row (λ b. taken b && not (q b)) rs ≡ false
      → exists_row (clash (f r)) (update_rows q f rs) ≡ false
  unfolding exists_row update_rows
  saved-others r [] own apart h = refl
  saved-others r (b ∷ rs) own apart h =
      ground (arith, only r b own, free r b own, saved-others r rs own)

  others-saved :
      (r : A) (rs : List A)
      → q r ≡ false
      → taken r ≡ false
      → exists_row (clash r) rs ≡ false
      → exists_row (clash r) (update_rows q f rs) ≡ false
  unfolding exists_row update_rows
  others-saved r [] other h apart = refl
  others-saved r (b ∷ rs) other h apart =
      ground (arith, comm r b, comm r (f b), free b r, others-saved r rs other h)

  pub Unique-update :
      (rs : List A)
      → exists_row (λ b. taken b && not (q b)) rs ≡ false
      → Unique clash rs
      → Unique clash (update_rows q f rs)
  unfolding exists_row update_rows
  Unique-update [] h u = tt
  Unique-update (r ∷ rs) h u = elim (Bool-cases (q r)) [
    | inl own ↦ ground (arith, saved-others r rs own, Unique-update rs)
    | inr other ↦ ground (arith, others-saved r rs other, Unique-update rs)
  ]

module _ {ℓ} {A : Type ℓ} where
  filter_and-none :
      (p q : A → Bool) (rs : List A) → filter_rows p rs ≡ [] → filter_rows (λ r. p r && q r) rs ≡ []
  unfolding filter_rows
  filter_and-none p q [] h = refl
  filter_and-none p q (r ∷ rs) h = ground (arith, filter_and-none p q rs)

  -- A further condition keeps or drops the one row that a query finds.
  pub filter_and-one :
      (p q : A → Bool) (rs : List A) (a : A)
      → filter_rows p rs ≡ a ∷ []
      → filter_rows (λ r. p r && q r) rs ≡ (if q a then a ∷ [] else [])
  unfolding filter_rows
  filter_and-one p q [] a h = cc
  filter_and-one p q (r ∷ rs) a h = ground (arith, filter_and-one p q rs a, filter_and-none p q rs)

-- A query whose rows would clash finds one row at most in a unique table.
module _ {ℓ} {A : Type ℓ} (clash : A → A → Bool) (p : A → Bool)
    (apart : (a b : A) → p a ≡ true → p b ≡ true → clash a b ≡ true) where
  filter-apart :
      (r : A) (rs : List A) → p r ≡ true → exists_row (clash r) rs ≡ false → filter_rows p rs ≡ []
  unfolding filter_rows exists_row
  filter-apart r [] own h = refl
  filter-apart r (b ∷ rs) own h = ground (arith, apart r b own, filter-apart r rs own)

  pub filter-Unique :
      (rs : List A)
      → Unique clash rs
      → (filter_rows p rs ≡ []) ⊎ ((a : A) × (filter_rows p rs ≡ a ∷ []))
  unfolding filter_rows
  filter-Unique [] u = inl refl
  filter-Unique (r ∷ rs) u = elim (Bool-cases (p r)) [
    | inl own ↦ inr (r, rw (own, filter-apart r rs own u.0) refl)
    | inr other ↦ rw other (filter-Unique rs u.1)
  ]
