-- ===== src/Accounts/UniqueEmails.antt =====
-- No two customers have the same email, or the same id.
use be_py_eco.Prelude.{
  ℕ, ◌≡◌, inl, inr, arith, ◌==◌, Bool-cases, Text, eq_text, eq_text_iff, exists_row, Unique,
}
use be_py_eco.Schema.{Customer, Database}
use be_py_eco.World.{Keeps, create_customer, clash_customer}
use be_py_eco.Prelude.Queries.{Unique-append, Unique-update}
use be_py_eco.Accounts.EmailChange.{is_taken_by_other, with_email, save_email}

abbrev pub UniqueEmails : Database → Type 0
UniqueEmails db = Unique clash_customer db.customers

pub clash_customer_comm : (a b : Customer) → clash_customer a b ≡ clash_customer b a
clash_customer_comm a b = ground (arith, eq_text_iff a.email b.email, eq_text_iff b.email a.email)

pub create_customer-UniqueEmails : (c : Customer) → Keeps UniqueEmails (create_customer c)
unfolding Keeps create_customer
create_customer-UniqueEmails c w u =
    ground (arith, Unique-append clash_customer c w.db.customers clash_customer_comm)

pub save_email-UniqueEmails :
    (id : ℕ) (email : Text) (at : ℕ) → Keeps UniqueEmails (save_email id email at)
unfolding Keeps save_email
save_email-UniqueEmails id email at w u =
    elim (Bool-cases (exists_row (is_taken_by_other id email) w.db.customers)) [
      | inl taken ↦ ground arith
      | inr free ↦
          let kept =
            Unique-update clash_customer (λ c. c.id == id) (λ c. eq_text c.email email)
              (with_email email at) clash_customer_comm (λ a b p q. ground arith)
              (λ a b p q apart open_email.
                ground (arith, eq_text_iff email b.email, eq_text_iff b.email email))
              w.db.customers free u in
          ground (arith, kept)
    ]
