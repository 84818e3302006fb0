-- ===== src/Accounts/Intact.antt =====
-- What stays true of the database whatever is asked of the server.
pub mod Rules
pub mod Elsewhere
pub mod Operations
pub mod Others
pub mod Views
pub mod Endpoints
use be_py_eco.Prelude.{ℕ, ◌≡◌, refl, List, [], ◌∷◌, ◌++◌, Unique}
use be_py_eco.Schema.{Database, Customer, Product}
use be_py_eco.World.{Keeps, Action, clash_staff}
use be_py_eco.Accounts.UniqueEmails.{UniqueEmails}

-- the second list is the first one, and then perhaps more
unfoldable pub Extends : {A : Type 0} → List A → List A → Type 0
Extends [] ys = Unit
Extends (x ∷ xs) [] = ⊥
Extends (x ∷ xs) (y ∷ ys) = (x ≡ y) × Extends xs ys

pub Extends-append :
    {A : Type 0} (xs ys : List A) (y : A) → Extends xs ys → Extends xs (ys ++ y ∷ [])
unfolding Extends
Extends-append [] ys y e = tt
Extends-append (x ∷ xs) [] y e = absurd e
Extends-append (x ∷ xs) (z ∷ ys) y e = (e.0, Extends-append xs ys y e.1)

pub Extends-self : {A : Type 0} (xs : List A) → Extends xs xs
unfolding Extends
Extends-self [] = tt
Extends-self (x ∷ xs) = (refl, Extends-self xs)

unfoldable pub customer_ids : List Customer → List ℕ
customer_ids [] = []
customer_ids (c ∷ cs) = c.id ∷ customer_ids cs

unfoldable pub product_ids : List Product → List ℕ
product_ids [] = []
product_ids (p ∷ ps) = p.id ∷ product_ids ps

-- No two customers and no two staff members share an email or an id; of the customers and the
-- products that were there at the start none is gone, and of the staff, the audit log and the
-- outbox none is gone or changed.
pub record Intact (start db : Database) : Type 0 where
  pub customers_apart : UniqueEmails db
  pub staff_apart : Unique clash_staff db.staff
  pub customers_kept : Extends (customer_ids start.customers) (customer_ids db.customers)
  pub products_kept : Extends (product_ids start.products) (product_ids db.products)
  pub staff_kept : Extends start.staff db.staff
  pub audit_log_kept : Extends start.audit_log db.audit_log
  pub outbox_kept : Extends start.outbox db.outbox

-- the action keeps the database intact, however it ends
unfoldable pub Safe : {A : Type 0} → Action A → Type 0
unfolding Keeps
Safe m = (start : Database) → Keeps (Intact start) m
