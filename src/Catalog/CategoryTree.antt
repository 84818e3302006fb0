-- ===== src/Catalog/CategoryTree.antt =====
-- src/modules/catalog/models/category.py (`assert_acyclic`) and services/category_tree.py
pub mod Termination
pub mod Acyclic
pub mod Cycles
pub mod Ancestors
use be_py_eco.Prelude.{
  ℕ, zero, suc, Bool, true, false, ◌||◌, Option, none, some, List, [], ◌∷◌, ◌==◌, length, first_row,
  update_rows,
}
use be_py_eco.Errors.{catalog, failure, category_cycle, does_not_exist}
use be_py_eco.Schema.{Category}
use be_py_eco.World.{branch, Action, pure, raise, modify, next_id, insert_category, ◌>>=◌, ◌>>◌}

-- `pk in seen`
unfoldable pub is_seen : ℕ → List ℕ → Bool
is_seen pk [] = false
is_seen pk (x ∷ seen) = pk == x || is_seen pk seen

-- the category of an id; `none` is a `DoesNotExist`, which the foreign key rules out
unfoldable pub category_of : ℕ → List Category → Option Category
category_of id cats = first_row (λ c. c.id == id) cats

-- how the walk up from the new parent ends
pub data Walk : Type 0 where
  reaches_root closes_loop dangling out_of_fuel : Walk

-- The loop of `assert_acyclic`: a round for each node, from the node to its parent. Fuel for one
-- round more than there are categories is enough (CategoryTree.Termination).
unfoldable mutual
  unfolding is_seen category_of

  pub walk_up : ℕ → List Category → List ℕ → Category → Walk
  walk_up zero cats seen node = out_of_fuel
  walk_up (suc fuel) cats seen node = elim (is_seen node.id seen) [
    | true ↦ closes_loop
    | false ↦ elim node.parent [
      | none ↦ reaches_root
      | some p ↦ elim (category_of p cats) [
        | none ↦ dangling
        | some parent ↦ walk_up fuel cats (node.id ∷ seen) parent
      ]
    ]
  ]

abbrev pub walk_result : Walk → Action (Unit {0})
walk_result reaches_root = pure tt
walk_result closes_loop = raise (catalog category_cycle)
walk_result dangling = raise (failure does_not_exist)
walk_result out_of_fuel = raise (failure does_not_exist)

-- `category.assert_acyclic(new_parent)` for the category with the key `pk`
unfoldable pub assert_acyclic : ℕ → Option Category → Action (Unit {0})
assert_acyclic pk none = pure tt
assert_acyclic pk (some new_parent) =
    branch (new_parent.id == pk) (raise (catalog category_cycle)) λ w.
      walk_result (walk_up (suc (length w.db.categories)) w.db.categories (pk ∷ []) new_parent) w

abbrev pub parent_id : Option Category → Option ℕ
parent_id none = none
parent_id (some c) = some c.id

unfoldable pub create_category : Option Category → Action Category
unfolding assert_acyclic insert_category
create_category parent = do
  id ← next_id
  assert_acyclic id parent
  insert_category (record { id = id; parent = parent_id parent })

abbrev pub set_parent : ℕ → Option ℕ → List Category → List Category
set_parent id parent cats = update_rows (λ c. c.id == id) (λ c. record c { parent = parent }) cats

unfoldable pub reparent_category : Category → Option Category → Action Category
unfolding assert_acyclic
reparent_category category new_parent = do
  assert_acyclic category.id new_parent
  modify
      (λ db. record db { categories = set_parent category.id (parent_id new_parent) db.categories })
  pure (record category { parent = parent_id new_parent })
