-- ===== src/Catalog/CategoryTree/Termination.antt =====
-- The walk of `assert_acyclic` ends: it never needs more rounds than there are categories, and one.
use be_py_eco.Prelude.{
  ℕ, zero, suc, ◌≤◌, ◌<◌, ◌≡◌, ap, ◌∙◌, ◌≢◌, inl, inr, false, some, List, [], ◌∷◌, arith,
  if◌then◌else◌, Bool-cases, Option-cases, length, first_row,
}
use be_py_eco.Schema.{Category}
use be_py_eco.Catalog.CategoryTree.{is_seen, category_of, walk_up, out_of_fuel}

-- how many categories the walk has not seen
unseen : List Category → List ℕ → ℕ
unseen [] seen = 0
unseen (c ∷ cats) seen = let rest = unseen cats seen in if is_seen c.id seen then rest else suc rest

unseen-length : (cats : List Category) (seen : List ℕ) → unseen cats seen ≤ length cats
unfolding unseen
unseen-length [] seen = ground arith
unseen-length (c ∷ cats) seen = ground (arith, unseen-length cats seen)

unseen_mono :
    (cats : List Category) (x : ℕ) (seen : List ℕ) → unseen cats (x ∷ seen) ≤ unseen cats seen
unfolding unseen is_seen
unseen_mono [] x seen = ground arith
unseen_mono (c ∷ cats) x seen = ground (arith, unseen_mono cats x seen)

-- seeing a category of the table that was not seen leaves fewer
unseen-less :
    (cats : List Category) (x : ℕ) (seen : List ℕ) (c : Category)
    → category_of x cats ≡ some c
    → is_seen x seen ≡ false
    → unseen cats (x ∷ seen) < unseen cats seen
unfolding unseen is_seen category_of first_row
unseen-less [] x seen c h new = absurd (ground arith)
unseen-less (d ∷ cats) x seen c h new =
    ground (arith, unseen_mono cats x seen, unseen-less cats x seen c)

pub category_of-id :
    (x : ℕ) (cats : List Category) (c : Category) → category_of x cats ≡ some c → c.id ≡ x
unfolding category_of first_row
category_of-id x [] c h = absurd (ground arith)
category_of-id x (d ∷ cats) c h = ground (arith, category_of-id x cats c)

pub category_of-own :
    (x : ℕ) (cats : List Category) (c : Category)
    → category_of x cats ≡ some c
    → category_of c.id cats ≡ some c
category_of-own x cats c h = ap (λ y. category_of y cats) (category_of-id x cats c h) ∙ h

-- a walk that has more fuel than categories left ends
walk-ends :
    (fuel : ℕ) (cats : List Category) (seen : List ℕ) (node : Category)
    → category_of node.id cats ≡ some node
    → unseen cats seen < fuel
    → walk_up fuel cats seen node ≢ out_of_fuel
unfolding walk_up
walk-ends zero cats seen node here enough = absurd (ground arith)
walk-ends (suc fuel) cats seen node here enough = elim (Bool-cases (is_seen node.id seen)) [
  | inl old ↦ ground arith
  | inr new ↦ elim (Option-cases node.parent) [
    | inl root ↦ ground arith
    | inr (p, up) ↦ elim (Option-cases (category_of p cats)) [
      | inl none_there ↦ ground arith
      | inr (parent, found) ↦
          let less = unseen-less cats node.id seen node here new in
          let own : category_of parent.id cats ≡ some parent =
            category_of-own p cats parent found in
          let rest = walk-ends fuel cats (node.id ∷ seen) parent own (ground arith) in
          ground (arith, rest)
    ]
  ]
]

-- The walk up from a category of the table, with any categories marked as seen beforehand, ends
-- within one round more than there are categories: at a root, at a category that was seen, or at
-- a parent that is not there.
pub walk_up-enough_fuel :
    (cats : List Category) (seen : List ℕ) (node : Category)
    → category_of node.id cats ≡ some node
    → walk_up (suc (length cats)) cats seen node ≢ out_of_fuel
walk_up-enough_fuel cats seen node here =
    let bound = unseen-length cats seen in
    walk-ends (suc (length cats)) cats seen node here (ground arith)
