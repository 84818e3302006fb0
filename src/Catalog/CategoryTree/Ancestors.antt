-- ===== src/Catalog/CategoryTree/Ancestors.antt =====
-- The categories above a category.
use be_py_eco.Prelude.{ℕ, ◌≡◌, none, some, List, arith, ==_refl}
use be_py_eco.Schema.{Category}
use be_py_eco.Catalog.CategoryTree.{category_of}
use be_py_eco.Catalog.CategoryTree.Acyclic.{Rooted, at_root, below, Avoids, root_apart, below_apart}

-- `x` is a category or one above it
pub data Ancestor (cats : List Category) (x : ℕ) : ℕ → Type 0 where
  itself : Ancestor cats x x
  above :
      (y p : ℕ) (c : Category)
      → category_of y cats ≡ some c
      → c.parent ≡ some p
      → Ancestor cats x p
      → Ancestor cats x y

-- `x` is above the parent of the category `s`; with `s` for `x`, the way up is a loop
pub record Passed (cats : List Category) (x s : ℕ) : Type 0 where
  pub row : Category
  pub next : ℕ
  pub here : category_of s cats ≡ some row
  pub up : row.parent ≡ some next
  pub back : Ancestor cats x next

pub Ancestor-above :
    (cats : List Category) (x y p : ℕ) (c : Category)
    → category_of x cats ≡ some c
    → c.parent ≡ some p
    → Ancestor cats x y
    → Ancestor cats p y
Ancestor-above cats x _ p c here up itself = above x p c here up itself
Ancestor-above cats x y p c here up (above _ q d there next rest) =
    above y q d there next (Ancestor-above cats x q p c here up rest)

pub same_parent :
    (cats : List Category) (x p q : ℕ) (c d : Category)
    → category_of x cats ≡ some c
    → c.parent ≡ some p
    → category_of x cats ≡ some d
    → d.parent ≡ some q
    → p ≡ q
same_parent cats x p q c d e up e' up' = ground arith

pub no_parent :
    (cats : List Category) (x q : ℕ) (c d : Category)
    → category_of x cats ≡ some c
    → c.parent ≡ none
    → category_of x cats ≡ some d
    → d.parent ≡ some q
    → ⊥
no_parent cats x q c d e root e' up' = ground arith

-- above a category that is below a root, no category is above its own parent
pub no_loop :
    (cats : List Category) (x y : ℕ) → Rooted cats x → Ancestor cats y x → Passed cats y y → ⊥
no_loop cats _ y (at_root c here root) itself loop =
    no_parent cats c.id loop.next c loop.row here root loop.here loop.up
no_loop cats _ y (at_root c here root) (above _ p d there up rest) loop =
    no_parent cats c.id p c d here root there up
no_loop cats _ y (below c p here up rooted) itself loop =
    let same = same_parent cats y p loop.next c loop.row here up loop.here loop.up in
    no_loop cats p y rooted (rw same loop.back) loop
no_loop cats _ y (below c p here up rooted) (above _ q d there next rest) loop =
    let same = same_parent cats c.id p q c d here up there next in
    no_loop cats p y rooted (rw same rest) loop

pub not_both : (cats : List Category) (pk x : ℕ) → Avoids cats pk x → Ancestor cats pk x → ⊥
not_both cats pk _ (root_apart c here root apart) itself = ground (arith, ==_refl c.id)
not_both cats pk _ (root_apart c here root apart) (above _ q d there next rest) =
    no_parent cats c.id q c d here root there next
not_both cats pk _ (below_apart c p here up apart rest) itself = ground (arith, ==_refl c.id)
not_both cats pk _ (below_apart c p here up apart avoids) (above _ q d there next rest) =
    let same = same_parent cats c.id p q c d here up there next in
    not_both cats pk p avoids (rw same rest)
