-- ===== src/World/Monad.antt =====
-- The world, and the monad of state and exceptions over it.
use be_py_eco.Prelude.{
  ℕ, suc, ◌≡◌, refl, ◌⊎◌, inl, inr, Bool, true, false, Option, none, some, List, [], ◌∷◌, ◌++◌,
  Text, before,
}
use be_py_eco.Errors.{Error, failure, multiple_objects_returned, smtp_error}
use be_py_eco.Schema.{Database}

pub record Mail : Type 0 where
  pub recipient : Text
  pub token : Text

-- `clock`, `ids` and `tokens` hold what the next readings of the clock and the next random values
-- will be, and `mail_refused` whether the mail server refuses the next mails; a reading drops the
-- first one. `files` is the object storage: names with their bytes.
pub record World : Type 0 where
  pub db : Database
  pub clock : ℕ → ℕ
  pub ids : ℕ → ℕ
  pub tokens : ℕ → Text
  pub mails : List Mail
  pub mail_refused : ℕ → Bool
  pub files : List (Text × List ℕ)

pub data Result {ℓ} (A : Type ℓ) : Type ℓ where
  ok : A → Result A
  err : Error → Result A

abbrev pub Action : Type 0 → Type 0
Action A = World → Result A × World

abbrev pub continue : {A B : Type 0} → Result A → (A → Action B) → Action B
continue (ok a) f w = f a w
continue (err e) f w = (err e, w)

infixl 5 ◌>>=◌ ◌>>◌
abbrev pub ◌>>=◌ : {A B : Type 0} → Action A → (A → Action B) → Action B
◌>>=◌ m f w = let (r, w') = m w in continue r f w'

abbrev pub ◌>>◌ : {A B : Type 0} → Action A → Action B → Action B
m >> k = m >>= λ _. k

module _ {A : Type 0} where
  abbrev pub pure : A → Action A
  pure a w = (ok a, w)

  abbrev pub raise : Error → Action A
  raise e w = (err e, w)

  abbrev pub reads : (Database → A) → Action A
  reads f w = (ok (f w.db), w)

  abbrev pub or_raise : Option A → Error → Action A
  or_raise none e w = (err e, w)
  or_raise (some a) e w = (ok a, w)

  -- `if b: m else: n`
  abbrev pub branch : Bool → Action A → Action A → Action A
  branch true m n w = m w
  branch false m n w = n w

  -- the rows that `objects.get` found: one is the answer
  abbrev pub the_row : List A → Error → Action A
  the_row [] e w = (err e, w)
  the_row (a ∷ []) e w = (ok a, w)
  the_row (_ ∷ _ ∷ _) e w = (err (failure multiple_objects_returned), w)

  -- `objects.get` under `except DoesNotExist`, where the handler goes on
  abbrev pub maybe_row : List A → Action (Option A)
  maybe_row [] w = (ok none, w)
  maybe_row (a ∷ []) w = (ok (some a), w)
  maybe_row (_ ∷ _ ∷ _) w = (err (failure multiple_objects_returned), w)

  -- `with transaction.atomic():` a raise undoes the writes to the database, and nothing else.
  abbrev roll_back : Database → Result A → World → Result A × World
  roll_back before (ok a) w = (ok a, w)
  roll_back before (err e) w = (err e, record w { db = before })

  abbrev pub atomic : Action A → Action A
  atomic m w = let (r, w') = m w in roll_back w.db r w'

-- `if b: raise e`
abbrev pub raise_if : Bool → Error → Action (Unit {0})
raise_if true e w = (err e, w)
raise_if false e w = (ok tt, w)

abbrev pub modify : (Database → Database) → Action (Unit {0})
modify f w = (ok tt, record w { db = f w.db })

-- `timezone.now()`
abbrev pub now : Action ℕ
now w = (ok (w.clock 0), record w { clock = λ n. w.clock (suc n) })

-- `uuid7()` as the default of a primary key, and `uuid.uuid4()`
abbrev pub next_id : Action ℕ
next_id w = (ok (w.ids 0), record w { ids = λ n. w.ids (suc n) })

-- `secrets.token_urlsafe(32)`, and the salts and token ids that libraries draw
abbrev pub next_token : Action Text
next_token w = (ok (w.tokens 0), record w { tokens = λ n. w.tokens (suc n) })

-- the mail server's answer to one mail
abbrev deliver : Bool → Mail → Action (Unit {0})
deliver true mail w = (err (failure smtp_error), w)
deliver false mail w = (ok tt, record w { mails = w.mails ++ mail ∷ [] })

-- Django's `send_mail` with `fail_silently=False`
abbrev pub send_mail : Text → Text → Action (Unit {0})
send_mail to token w =
    deliver (w.mail_refused 0) (record { recipient = to; token = token })
      (record w { mail_refused = λ n. w.mail_refused (suc n) })

-- A result, by cases that keep the equation.
pub Result-cases :
    {A : Type 0} (r : Result A) → ((a : A) × (r ≡ ok a)) ⊎ ((e : Error) × (r ≡ err e))
Result-cases (ok a) = inl (a, refl)
Result-cases (err e) = inr (e, refl)
