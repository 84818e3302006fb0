-- ===== src/Accounts/Intact/Rules.antt =====
-- How an action keeps the database intact, from its parts.
use be_py_eco.Prelude.{Bool, Option, List, Text}
use be_py_eco.Errors.{Error}
use be_py_eco.Schema.{Database}
use be_py_eco.World.{
  ◌>>=◌, Action, pure, raise, reads, or_raise, branch, the_row, maybe_row, atomic, raise_if, now,
  next_id, next_token, send_mail, Keeps-pure, Keeps-raise, Keeps-reads, Keeps-or_raise,
  Keeps-branch, Keeps-the_row, Keeps-maybe_row, Keeps-atomic, Keeps-raise_if, Keeps-now,
  Keeps-next_id, Keeps-next_token, Keeps-send_mail, Keeps-bind,
}
use be_py_eco.Accounts.Intact.{Safe, Intact}

module _ {A : Type 0} where
  pub Safe-pure : (a : A) → Safe (pure a)
  unfolding Safe
  Safe-pure a start = Keeps-pure (Intact start) a

  pub Safe-reads : (f : Database → A) → Safe (reads f)
  unfolding Safe
  Safe-reads f start = Keeps-reads (Intact start) f

  pub Safe-or_raise : (o : Option A) (e : Error) → Safe (or_raise o e)
  unfolding Safe
  Safe-or_raise o e start = Keeps-or_raise (Intact start) o e

  pub Safe-branch : (b : Bool) (m n : Action A) → Safe m → Safe n → Safe (branch b m n)
  unfolding Safe
  Safe-branch b m n f g start = Keeps-branch (Intact start) b m n (f start) (g start)

  pub Safe-the_row : (rows : List A) (e : Error) → Safe (the_row rows e)
  unfolding Safe
  Safe-the_row rows e start = Keeps-the_row (Intact start) rows e

  pub Safe-maybe_row : (rows : List A) → Safe (maybe_row rows)
  unfolding Safe
  Safe-maybe_row rows start = Keeps-maybe_row (Intact start) rows

  pub Safe-atomic : (m : Action A) → Safe m → Safe (atomic m)
  unfolding Safe
  Safe-atomic m f start = Keeps-atomic (Intact start) m (f start)

  pub Safe-bind :
      {B : Type 0} (m : Action A) (f : A → Action B)
      → Safe m
      → ((a : A) → Safe (f a))
      → Safe (m >>= f)
  unfolding Safe
  Safe-bind m f g h start = Keeps-bind (Intact start) m f (g start) (λ a. h a start)

pub Safe-raise : (A : Type 0) (e : Error) → Safe (raise {A = A} e)
unfolding Safe
Safe-raise A e start = Keeps-raise (Intact start) A e

pub Safe-raise_if : (b : Bool) (e : Error) → Safe (raise_if b e)
unfolding Safe
Safe-raise_if b e start = Keeps-raise_if (Intact start) b e

pub Safe-now : Safe now
unfolding Safe
Safe-now start = Keeps-now (Intact start)

pub Safe-next_id : Safe next_id
unfolding Safe
Safe-next_id start = Keeps-next_id (Intact start)

pub Safe-next_token : Safe next_token
unfolding Safe
Safe-next_token start = Keeps-next_token (Intact start)

pub Safe-send_mail : (to token : Text) → Safe (send_mail to token)
unfolding Safe
Safe-send_mail to token start = Keeps-send_mail (Intact start) to token

pub ruleset safe_rules = (
  Safe-pure, Safe-raise, Safe-reads, Safe-or_raise, Safe-branch, Safe-the_row, Safe-maybe_row,
  Safe-atomic, Safe-raise_if, Safe-now, Safe-next_id, Safe-next_token, Safe-send_mail, Safe-bind,
)
