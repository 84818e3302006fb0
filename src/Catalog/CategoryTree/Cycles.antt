-- ===== src/Catalog/CategoryTree/Cycles.antt =====
-- Which moves of a category are refused.
use be_py_eco.Prelude.{
  ℕ, zero, suc, ◌≡◌, ◌≢◌, ◌↔◌, ◌⊎◌, inl, inr, true, false, none, some, List, [], ◌∷◌, arith, ◌==◌,
  ==_iff, ==_refl, Bool-cases, Option-cases, length,
}
use be_py_eco.Errors.{catalog, category_cycle}
use be_py_eco.Schema.{Category}
use be_py_eco.World.{World, err}
use be_py_eco.Catalog.CategoryTree.{
  is_seen, category_of, Walk, walk_up, reaches_root, closes_loop, dangling, out_of_fuel,
  assert_acyclic, reparent_category,
}
use be_py_eco.Catalog.CategoryTree.Termination.{
  category_of-id, category_of-own, walk_up-enough_fuel,
}
use be_py_eco.Catalog.CategoryTree.Acyclic.{Rooted, at_root, below, Forest, walk-Avoids}
use be_py_eco.Catalog.CategoryTree.Ancestors.{
  Ancestor, itself, above, Passed, Ancestor-above, same_parent, no_parent, no_loop, not_both,
}

-- what the walk from `x` knows of the categories that it has seen: each is the one that is to
-- move, or `x` is above its parent
AllSeen : List Category → ℕ → ℕ → List ℕ → Type 0
AllSeen cats pk x seen = (s : ℕ) → is_seen s seen ≡ true → (s ≡ pk) ⊎ Passed cats x s

AllSeen-above :
    (cats : List Category) (pk p : ℕ) (seen : List ℕ) (node : Category)
    → category_of node.id cats ≡ some node
    → node.parent ≡ some p
    → AllSeen cats pk node.id seen
    → AllSeen cats pk p (node.id ∷ seen)
unfolding AllSeen is_seen
AllSeen-above cats pk p seen node here up all s h = elim (Bool-cases (s == node.id)) [
  | inl same ↦ inr (
      rw ((==_iff s node.id).0 same)
        (record { row = node; next = p; here = here; up = up; back = itself }))
  | inr other ↦ elim (all s (ground arith)) [
    | inl e ↦ inl e
    | inr old ↦ inr (record {
      row = old.row;
      next = old.next;
      here = old.here;
      up = old.up;
      back = Ancestor-above cats node.id old.next p node here up old.back;
    })
  ]
]

parent-Rooted :
    (cats : List Category) (x p : ℕ) (c : Category)
    → Rooted cats x
    → category_of x cats ≡ some c
    → c.parent ≡ some p
    → Rooted cats p
parent-Rooted cats _ p c (at_root d there root) here up =
    absurd (no_parent cats d.id p d c there root here up)
parent-Rooted cats _ p c (below d q there next rooted) here up =
    rw (same_parent cats d.id p q c d here up there next) rooted

walk-Ancestor :
    (fuel : ℕ) (cats : List Category) (pk : ℕ) (seen : List ℕ) (node : Category)
    → category_of node.id cats ≡ some node
    → Rooted cats node.id
    → AllSeen cats pk node.id seen
    → walk_up fuel cats seen node ≡ closes_loop
    → Ancestor cats pk node.id
unfolding walk_up AllSeen
walk-Ancestor zero cats pk seen node here rooted all h = absurd (ground arith)
walk-Ancestor (suc fuel) cats pk seen node here rooted all h =
    elim (Bool-cases (is_seen node.id seen)) [
      | inl again ↦ elim (all node.id again) [
        | inl e ↦ rw e itself
        | inr s ↦ absurd (no_loop cats node.id node.id rooted itself s)
      ]
      | inr new ↦ elim (Option-cases node.parent) [
        | inl root ↦ absurd (ground arith)
        | inr (p, up) ↦ elim (Option-cases (category_of p cats)) [
          | inl gone ↦ absurd (ground arith)
          | inr (parent, found) ↦
              let same = category_of-id p cats parent found in
              let rest =
                walk-Ancestor fuel cats pk (node.id ∷ seen) parent
                  (category_of-own p cats parent found)
                  (rw same (parent-Rooted cats node.id p node rooted here up))
                  (rw same (AllSeen-above cats pk p seen node here up all)) (ground arith) in
              above node.id p node here up (rw (← same) rest)
        ]
      ]
    ]

Rooted-found : (cats : List Category) (x : ℕ) → Rooted cats x → category_of x cats ≢ none
Rooted-found cats _ (at_root c here root) gone = ground arith
Rooted-found cats _ (below c p here up rooted) gone = ground arith

walk-not_dangling :
    (fuel : ℕ) (cats : List Category) (seen : List ℕ) (node : Category)
    → category_of node.id cats ≡ some node
    → Rooted cats node.id
    → walk_up fuel cats seen node ≢ dangling
unfolding walk_up
walk-not_dangling zero cats seen node here rooted = ground arith
walk-not_dangling (suc fuel) cats seen node here rooted = elim (Bool-cases (is_seen node.id seen)) [
  | inl again ↦ ground arith
  | inr new ↦ elim (Option-cases node.parent) [
    | inl root ↦ ground arith
    | inr (p, up) ↦ elim (Option-cases (category_of p cats)) [
      | inl gone ↦
          absurd (Rooted-found cats p (parent-Rooted cats node.id p node rooted here up) gone)
      | inr (parent, found) ↦
          let same = category_of-id p cats parent found in
          let rest =
            walk-not_dangling fuel cats (node.id ∷ seen) parent
              (category_of-own p cats parent found)
              (rw same (parent-Rooted cats node.id p node rooted here up)) in
          ground (arith, rest)
    ]
  ]
]

Walk-cases :
    (r : Walk) → (r ≡ reaches_root) ⊎ (r ≡ closes_loop) ⊎ (r ≡ dangling) ⊎ (r ≡ out_of_fuel)
Walk-cases r = ground arith

start_AllSeen : (cats : List Category) (pk x : ℕ) → AllSeen cats pk x (pk ∷ [])
unfolding AllSeen is_seen
start_AllSeen cats pk x s h = inl (ground arith)

walk-Ancestor_iff :
    (cats : List Category) (pk : ℕ) (node : Category)
    → category_of node.id cats ≡ some node
    → Rooted cats node.id
    → (walk_up (suc (length cats)) cats (pk ∷ []) node ≡ closes_loop) ↔ Ancestor cats pk node.id
unfolding is_seen
walk-Ancestor_iff cats pk node here rooted =
    let steps = walk_up (suc (length cats)) cats (pk ∷ []) node in
    let onto : Ancestor cats pk node.id → steps ≡ closes_loop = λ anc.
      let no_root : steps ≢ reaches_root = λ e.
        not_both cats pk node.id
          (walk-Avoids (suc (length cats)) cats pk (pk ∷ []) node here (ground (arith, ==_refl pk))
            e)
          anc in
      let no_gap = walk-not_dangling (suc (length cats)) cats (pk ∷ []) node here rooted in
      let ends = walk_up-enough_fuel cats (pk ∷ []) node here in ground (arith, Walk-cases steps) in
    (
      walk-Ancestor (suc (length cats)) cats pk (pk ∷ []) node here rooted
          (start_AllSeen cats pk node.id),
      onto,
    )

reparent_category-itself :
    (category p : Category) (w : World)
    → (p.id == category.id) ≡ true
    → (reparent_category category (some p) w).0 ≡ err (catalog category_cycle)
unfolding reparent_category assert_acyclic
reparent_category-itself category p w same = ground arith

reparent_category-walk_iff :
    (category p : Category) (w : World)
    → (p.id == category.id) ≡ false
    → ((reparent_category category (some p) w).0 ≡ err (catalog category_cycle))
      ↔ (walk_up (suc (length w.db.categories)) w.db.categories (category.id ∷ []) p ≡ closes_loop)
unfolding reparent_category assert_acyclic
reparent_category-walk_iff category p w apart = ground arith

-- In a forest, a move to a new parent of the table is refused as a cycle exactly when the category
-- is the new parent or is above it.
pub reparent_category-cycle_iff :
    (category p : Category) (w : World)
    → Forest w.db.categories
    → category_of p.id w.db.categories ≡ some p
    → ((reparent_category category (some p) w).0 ≡ err (catalog category_cycle))
      ↔ Ancestor w.db.categories category.id p.id
unfolding Forest
reparent_category-cycle_iff category p w forest here = elim (Bool-cases (p.id == category.id)) [
  | inl same ↦
      let e = (==_iff p.id category.id).0 same in
      (λ _. rw e itself, λ _. reparent_category-itself category p w same)
  | inr apart ↦
      let one = reparent_category-walk_iff category p w apart in
      let two = walk-Ancestor_iff w.db.categories category.id p here (forest p here) in
      (λ h. two.0 (one.0 h), λ a. one.1 (two.1 a))
]
