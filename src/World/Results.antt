-- ===== src/World/Results.antt =====
-- What an action yields when it does not raise.
use be_py_eco.Prelude.{◌≡◌, refl, sym, arith}
use be_py_eco.Errors.{Error}
use be_py_eco.World.Monad.{◌>>=◌, World, Result, ok, err, Action, continue, pure, raise}

-- `P` holds of every result that the action returns
unfoldable pub Yields : {A : Type 0} → (A → Type 0) → Action A → Type 0
Yields {A} P m = (w : World) (a : A) → (m w).0 ≡ ok a → P a

module _ {A : Type 0} (P : A → Type 0) where
  ok_injective : (a b : A) → ◌≡◌ {A = Result A} (ok a) (ok b) → P a → P b
  ok_injective a b e p = let same : a ≡ b = cc in rw (sym same) p

  pub Yields-pure : (a : A) → P a → Yields P (pure a)
  unfolding Yields
  Yields-pure a p w b h = ok_injective a b h p

  pub Yields-raise : (e : Error) → Yields P (raise e)
  unfolding Yields
  Yields-raise e w a h = absurd (ground arith)

  module _ {B : Type 0} where
    continue-yields :
        (r : Result B) (f : B → Action A) (w : World) (a : A)
        → ((b : B) → Yields P (f b))
        → (continue r f w).0 ≡ ok a
        → P a
    unfolding Yields
    continue-yields (ok b) f w a y h = y b w a h
    continue-yields (err e) f w a y h = absurd (ground arith)

    pub Yields-bind :
        (m : Action B) (f : B → Action A) → ((b : B) → Yields P (f b)) → Yields P (m >>= f)
    unfolding Yields
    Yields-bind m f y w a h = continue-yields (m w).0 f (m w).1 a y h

module _ {A B : Type 0} (P : A → Type 0) (Q : B → Type 0) where
  continue-map :
      (r : Result B) (f : B → A) (w : World) (a : A)
      → ((b : B) → r ≡ ok b → Q b)
      → ((b : B) → Q b → P (f b))
      → (continue r (λ b. pure (f b)) w).0 ≡ ok a
      → P a
  continue-map (ok b) f w a y g h = ok_injective P (f b) a h (g b (y b refl))
  continue-map (err e) f w a y g h = absurd (ground arith)

  -- a result that is made into another one
  pub Yields-map :
      (m : Action B) (f : B → A)
      → Yields Q m
      → ((b : B) → Q b → P (f b))
      → Yields P (m >>= λ b. pure (f b))
  unfolding Yields
  Yields-map m f y g w a h = continue-map (m w).0 f (m w).1 a (y w) g h

pub ruleset yields_rules = (Yields-pure, Yields-raise, Yields-bind)
