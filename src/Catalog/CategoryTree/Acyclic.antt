-- ===== src/Catalog/CategoryTree/Acyclic.antt =====
-- The category tree stays a forest.
use be_py_eco.World.{ok, World}
use be_py_eco.Prelude.{
  ℕ, zero, suc, ◌≡◌, refl, sym, ◌∙◌, inl, inr, true, false, Option, none, some, List, [], ◌∷◌,
  arith, ◌==◌, ==_iff, Bool-cases, Option-cases, length, first_row, update_rows,
}
use be_py_eco.Schema.{Category}
use be_py_eco.Catalog.CategoryTree.{
  walk_result, Walk, parent_id, reparent_category, assert_acyclic, is_seen, category_of, walk_up,
  reaches_root, set_parent,
}
use be_py_eco.Catalog.CategoryTree.Termination.{category_of-own, category_of-id}

-- the way up from a category ends at a root
pub data Rooted (cats : List Category) : ℕ → Type 0 where
  at_root : (c : Category) → category_of c.id cats ≡ some c → c.parent ≡ none → Rooted cats c.id
  below :
      (c : Category) (p : ℕ)
      → category_of c.id cats ≡ some c
      → c.parent ≡ some p
      → Rooted cats p
      → Rooted cats c.id

-- every category of the table is below a root
unfoldable pub Forest : List Category → Type 0
Forest cats = (c : Category) → category_of c.id cats ≡ some c → Rooted cats c.id

-- the way up from a category ends at a root and does not pass the category `pk`
pub data Avoids (cats : List Category) (pk : ℕ) : ℕ → Type 0 where
  root_apart :
      (c : Category)
      → category_of c.id cats ≡ some c
      → c.parent ≡ none
      → (c.id == pk) ≡ false
      → Avoids cats pk c.id
  below_apart :
      (c : Category) (p : ℕ)
      → category_of c.id cats ≡ some c
      → c.parent ≡ some p
      → (c.id == pk) ≡ false
      → Avoids cats pk p
      → Avoids cats pk c.id

category_of-other :
    (cats : List Category) (pk x : ℕ) (parent : Option ℕ)
    → (x == pk) ≡ false
    → category_of x (set_parent pk parent cats) ≡ category_of x cats
unfolding category_of first_row update_rows
category_of-other [] pk x parent apart = refl
category_of-other (c ∷ cats) pk x parent apart =
    ground (arith, category_of-other cats pk x parent apart)

category_of-moved :
    (cats : List Category) (pk : ℕ) (parent : Option ℕ) (c : Category)
    → category_of pk cats ≡ some c
    → category_of pk (set_parent pk parent cats) ≡ some (record c { parent = parent })
unfolding category_of first_row update_rows
category_of-moved [] pk parent c h = cc
category_of-moved (d ∷ cats) pk parent c h = ground (arith, category_of-moved cats pk parent c)

not_seen_apart :
    (x pk : ℕ) (seen : List ℕ) → is_seen x seen ≡ false → is_seen pk seen ≡ true → (x == pk) ≡ false
unfolding is_seen
not_seen_apart x pk [] new old = ground arith
not_seen_apart x pk (y ∷ seen) new old = ground (arith, not_seen_apart x pk seen)

pub walk-Avoids :
    (fuel : ℕ) (cats : List Category) (pk : ℕ) (seen : List ℕ) (node : Category)
    → category_of node.id cats ≡ some node
    → is_seen pk seen ≡ true
    → walk_up fuel cats seen node ≡ reaches_root
    → Avoids cats pk node.id
unfolding walk_up
walk-Avoids zero cats pk seen node here old h = absurd (ground arith)
walk-Avoids (suc fuel) cats pk seen node here old h = elim (Bool-cases (is_seen node.id seen)) [
  | inl again ↦ absurd (ground arith)
  | inr new ↦
      let apart = not_seen_apart node.id pk seen new old in
      elim (Option-cases node.parent) [
        | inl root ↦ root_apart node here root apart
        | inr (p, up) ↦ elim (Option-cases (category_of p cats)) [
          | inl gone ↦ absurd (ground arith)
          | inr (parent, found) ↦
              let own = category_of-own p cats parent found in
              let rest =
                walk-Avoids fuel cats pk (node.id ∷ seen) parent own (ground arith)
                  (ground arith) in
              below_apart node p here up apart (rw (← category_of-id p cats parent found) rest)
        ]
      ]
]

Avoids-Rooted :
    (cats : List Category) (pk : ℕ) (parent : Option ℕ) (x : ℕ)
    → Avoids cats pk x
    → Rooted (set_parent pk parent cats) x
Avoids-Rooted cats pk parent _ (root_apart c here root apart) =
    at_root c (category_of-other cats pk c.id parent apart ∙ here) root
Avoids-Rooted cats pk parent _ (below_apart c p here up apart rest) =
    below c p (category_of-other cats pk c.id parent apart ∙ here) up
      (Avoids-Rooted cats pk parent p rest)

pub walk_result-ok : (r : Walk) (w : World) → (walk_result r w).0 ≡ ok tt → r ≡ reaches_root
walk_result-ok r w h = ground arith

pub assert_acyclic-Avoids :
    (pk : ℕ) (np : Category) (w : World)
    → category_of np.id w.db.categories ≡ some np
    → (assert_acyclic pk (some np) w).0 ≡ ok tt
    → Avoids w.db.categories pk np.id
unfolding assert_acyclic
assert_acyclic-Avoids pk np w here h =
    let steps = walk_up (suc (length w.db.categories)) w.db.categories (pk ∷ []) np in
    walk-Avoids (suc (length w.db.categories)) w.db.categories pk (pk ∷ []) np here
      (unfold is_seen in ground arith) (walk_result-ok steps w (ground arith))

-- the new parent, if there is one, is a category of the table
abbrev pub IsParent : List Category → Option Category → Type 0
IsParent cats none = Unit
IsParent cats (some p) = category_of p.id cats ≡ some p

moved-Rooted :
    (category row : Category) (new_parent : Option Category) (w : World)
    → IsParent w.db.categories new_parent
    → category_of category.id w.db.categories ≡ some row
    → (assert_acyclic category.id new_parent w).0 ≡ ok tt
    → Rooted (set_parent category.id (parent_id new_parent) w.db.categories) category.id
moved-Rooted category row none w _ here h =
    let own = category_of-own category.id w.db.categories row here in
    rw (← category_of-id category.id w.db.categories row here) (
      at_root (record row { parent = none }) (category_of-moved w.db.categories row.id none row own)
        refl)
moved-Rooted category row (some p) w isp here h =
    let own = category_of-own category.id w.db.categories row here in
    let free = assert_acyclic-Avoids category.id p w isp h in
    let up = Avoids-Rooted w.db.categories category.id (some p.id) p.id free in
    let same = category_of-id category.id w.db.categories row here in
    rw (← same) (
      below (record row { parent = some p.id }) p.id
        (category_of-moved w.db.categories row.id (some p.id) row own) refl (rw same up))

others-Rooted :
    (cats : List Category) (pk : ℕ) (parent : Option ℕ) (x : ℕ)
    → Rooted (set_parent pk parent cats) pk
    → Rooted cats x
    → Rooted (set_parent pk parent cats) x
others-Rooted cats pk parent _ moved (at_root c here root) = elim (Bool-cases (c.id == pk)) [
  | inl same ↦ rw ((==_iff c.id pk).0 same) moved
  | inr apart ↦ at_root c (category_of-other cats pk c.id parent apart ∙ here) root
]
others-Rooted cats pk parent _ moved (below c p here up rest) = elim (Bool-cases (c.id == pk)) [
  | inl same ↦ rw ((==_iff c.id pk).0 same) moved
  | inr apart ↦
      below c p (category_of-other cats pk c.id parent apart ∙ here) up
        (others-Rooted cats pk parent p moved rest)
]

reparent_category-ok :
    (category moved : Category) (new_parent : Option Category) (w : World)
    → (reparent_category category new_parent w).0 ≡ ok moved
    → ((assert_acyclic category.id new_parent w).0 ≡ ok tt)
      × ((reparent_category category new_parent w).1.db.categories
          ≡ set_parent category.id (parent_id new_parent) w.db.categories)
unfolding reparent_category assert_acyclic
reparent_category-ok category moved none w h = ground arith
reparent_category-ok category moved (some p) w h = ground arith

Forest-moved :
    (cats : List Category) (pk : ℕ) (parent : Option ℕ)
    → Forest cats
    → Rooted (set_parent pk parent cats) pk
    → Forest (set_parent pk parent cats)
unfolding Forest
Forest-moved cats pk parent forest moved c here = elim (Bool-cases (c.id == pk)) [
  | inl same ↦ rw ((==_iff c.id pk).0 same) moved
  | inr apart ↦
      others-Rooted cats pk parent c.id moved
        (forest c (sym (category_of-other cats pk c.id parent apart) ∙ here))
]

-- A move that succeeds, of a category of the table to no parent or to one of the table, keeps the
-- table a forest.
pub reparent_category-Forest :
    (category row moved : Category) (new_parent : Option Category) (w : World)
    → Forest w.db.categories
    → IsParent w.db.categories new_parent
    → category_of category.id w.db.categories ≡ some row
    → (reparent_category category new_parent w).0 ≡ ok moved
    → Forest (reparent_category category new_parent w).1.db.categories
reparent_category-Forest category row moved new_parent w forest isp here h =
    let step = reparent_category-ok category moved new_parent w h in
    let up = moved-Rooted category row new_parent w isp here step.0 in
    rw step.1 (Forest-moved w.db.categories category.id (parent_id new_parent) forest up)
