-- ===== src/Prelude/Tables.antt =====
-- Lists as tables: the queries that Django's manager runs, over any row type.
use Prim.Native.Nat.{ℕ, suc}
use mathlib.Core.Path.{◌≡◌}
use mathlib.Core.Bool.{Bool, false, ◌||◌}
use mathlib.Core.Option.{Option, none, some}
use mathlib.Core.List.{List, [], ◌∷◌}
use be_py_eco.Prelude.Tests.{if◌then◌else◌}

module _ {ℓ} {A : Type ℓ} where
  abbrev pub length : List A → ℕ
  length [] = 0
  length (x ∷ xs) = suc (length xs)

  -- `objects.filter(p)`
  unfoldable pub filter_rows : (A → Bool) → List A → List A
  filter_rows p [] = []
  filter_rows p (r ∷ rs) = let rest = filter_rows p rs in if p r then r ∷ rest else rest

  -- `objects.filter(p).exists()`
  unfoldable pub exists_row : (A → Bool) → List A → Bool
  exists_row p [] = false
  exists_row p (r ∷ rs) = p r || exists_row p rs

  -- `objects.filter(p).first()`
  unfoldable pub first_row : (A → Bool) → List A → Option A
  first_row p [] = none
  first_row p (r ∷ rs) = if p r then some r else first_row p rs

  -- `objects.filter(p).update(f)`
  unfoldable pub update_rows : (A → Bool) → (A → A) → List A → List A
  update_rows p f [] = []
  update_rows p f (r ∷ rs) = (if p r then f r else r) ∷ update_rows p f rs

  -- `objects.filter(p).delete()`
  unfoldable pub delete_rows : (A → Bool) → List A → List A
  delete_rows p [] = []
  delete_rows p (r ∷ rs) = let rest = delete_rows p rs in if p r then rest else r ∷ rest

  -- A predicate that holds of every row.
  abbrev pub All {κ} : (A → Type κ) → List A → Type κ
  All P [] = Unit
  All P (r ∷ rs) = P r × All P rs

  -- No two rows clash: what a unique constraint promises of a table.
  abbrev pub Unique : (A → A → Bool) → List A → Type 0
  Unique clash [] = Unit {0}
  Unique clash (r ∷ rs) = (exists_row (clash r) rs ≡ false) × Unique clash rs
