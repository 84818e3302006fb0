-- ===== src/World/Invariants.antt =====
-- Invariants of the database, kept by an action however it ends.
use be_py_eco.Prelude.{inl, inr, Bool, true, false, Option, none, some, List, [], ◌∷◌, arith, Text}
use be_py_eco.Errors.{Error}
use be_py_eco.Schema.{Database}
use be_py_eco.World.Monad.{
  ◌>>=◌, Result-cases, World, Result, ok, err, Action, continue, pure, raise, reads, or_raise,
  branch, the_row, maybe_row, atomic, raise_if, modify, now, next_id, next_token, send_mail,
}

-- `P` holds of the database after the action when it held before, also when the action raises
unfoldable pub Keeps : (Database → Type 0) → {A : Type 0} → Action A → Type 0
Keeps P m = (w : World) → P w.db → P (m w).1.db

module _ (P : Database → Type 0) {A : Type 0} where
  pub Keeps-pure : (a : A) → Keeps P (pure a)
  unfolding Keeps
  Keeps-pure a w p = p

  pub Keeps-reads : (f : Database → A) → Keeps P (reads f)
  unfolding Keeps
  Keeps-reads f w p = p

  pub Keeps-or_raise : (o : Option A) (e : Error) → Keeps P (or_raise o e)
  unfolding Keeps
  Keeps-or_raise none e w p = p
  Keeps-or_raise (some a) e w p = p

  pub Keeps-branch : (b : Bool) (m n : Action A) → Keeps P m → Keeps P n → Keeps P (branch b m n)
  unfolding Keeps
  Keeps-branch true m n f g w p = f w p
  Keeps-branch false m n f g w p = g w p

  pub Keeps-the_row : (rows : List A) (e : Error) → Keeps P (the_row rows e)
  unfolding Keeps
  Keeps-the_row [] e w p = p
  Keeps-the_row (a ∷ []) e w p = p
  Keeps-the_row (a ∷ b ∷ rows) e w p = p

  pub Keeps-maybe_row : (rows : List A) → Keeps P (maybe_row rows)
  unfolding Keeps
  Keeps-maybe_row [] w p = p
  Keeps-maybe_row (a ∷ []) w p = p
  Keeps-maybe_row (a ∷ b ∷ rows) w p = p

  pub Keeps-atomic : (m : Action A) → Keeps P m → Keeps P (atomic m)
  unfolding Keeps
  Keeps-atomic m f w p = elim (Result-cases (m w).0) [
    | inl (a, e) ↦ rw e (f w p)
    | inr (e, h) ↦ rw h p
  ]

module _ (P : Database → Type 0) where
  pub Keeps-raise : (A : Type 0) (e : Error) → Keeps P (raise {A = A} e)
  unfolding Keeps
  Keeps-raise A e w p = p

  pub Keeps-raise_if : (b : Bool) (e : Error) → Keeps P (raise_if b e)
  unfolding Keeps
  Keeps-raise_if true e w p = p
  Keeps-raise_if false e w p = p

  pub Keeps-modify :
      (f : Database → Database) → ((db : Database) → P db → P (f db)) → Keeps P (modify f)
  unfolding Keeps
  Keeps-modify f h w p = h w.db p

  pub Keeps-now : Keeps P now
  unfolding Keeps
  Keeps-now w p = p

  pub Keeps-next_id : Keeps P next_id
  unfolding Keeps
  Keeps-next_id w p = p

  pub Keeps-next_token : Keeps P next_token
  unfolding Keeps
  Keeps-next_token w p = p

  pub Keeps-send_mail : (to token : Text) → Keeps P (send_mail to token)
  unfolding Keeps
  Keeps-send_mail to token w p = ground arith

module _ (P : Database → Type 0) {A B : Type 0} where
  continue-keeps :
      (r : Result A) (f : A → Action B) (w : World)
      → ((a : A) → Keeps P (f a))
      → P w.db
      → P (continue r f w).1.db
  unfolding Keeps
  continue-keeps (ok a) f w h p = h a w p
  continue-keeps (err e) f w h p = p

  pub Keeps-bind :
      (m : Action A) (f : A → Action B) → Keeps P m → ((a : A) → Keeps P (f a)) → Keeps P (m >>= f)
  unfolding Keeps
  Keeps-bind m f g h w p = continue-keeps (m w).0 f (m w).1 h (g w p)

pub ruleset keeps_rules = (
  Keeps-pure, Keeps-raise, Keeps-reads, Keeps-or_raise, Keeps-branch, Keeps-the_row,
  Keeps-maybe_row, Keeps-atomic, Keeps-raise_if, Keeps-now, Keeps-next_id, Keeps-next_token,
  Keeps-send_mail, Keeps-bind,
)
