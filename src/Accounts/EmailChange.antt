-- ===== src/Accounts/EmailChange.antt =====
-- src/modules/accounts/services/email_change.py
pub mod Atomic
use be_py_eco.Prelude.{ℕ, Bool, not, ◌&&◌, some, ◌==◌, if◌then◌else◌, Text, eq_text, exists_row}
use be_py_eco.Errors.{accounts, email_already_taken}
use be_py_eco.Schema.{Customer, email_change}
use be_py_eco.World.{
  Action, ok, err, pure, reads, atomic, raise_if, modify, now, send_mail, Services, ◌>>=◌, ◌>>◌,
}
use be_py_eco.Accounts.Tokens.{
  email_change_token_ttl, normalize_email, save_consumed, save_customer, find_token, issue_token,
}

-- the email belongs to another customer
abbrev pub is_taken_by_other : ℕ → Text → Customer → Bool
is_taken_by_other id email c = eq_text c.email email && not (c.id == id)

abbrev pub with_email : Text → ℕ → Customer → Customer
with_email email at c = record c { email = email; email_verified_at = some at }

-- `customer.save(update_fields=["email", …])`: the unique constraint refuses an email that
-- another row has, and the handler turns the `IntegrityError` into `EmailAlreadyTakenError`.
unfoldable pub save_email : ℕ → Text → ℕ → Action (Unit {0})
save_email id email at w =
    if exists_row (is_taken_by_other id email) w.db.customers
    then (err (accounts email_already_taken), w)
    else (ok tt, record w { db = save_customer id (with_email email at) w.db })

module _ (sv : Services) where
  unfoldable pub request_email_change : Customer → Text → Action (Unit {0})
  unfolding issue_token
  request_email_change customer new_email = do
    taken ←
        reads (λ db.
          exists_row (is_taken_by_other customer.id (normalize_email new_email)) db.customers)
    raise_if taken (accounts email_already_taken)
    raw ← issue_token sv customer.id email_change (normalize_email new_email) email_change_token_ttl
    send_mail (normalize_email new_email) raw

  unfoldable pub confirm_email_change : Text → Action Customer
  unfolding save_email
  confirm_email_change raw = do
    found ← find_token sv email_change raw
    atomic (do
      consumed ← now
      modify (save_consumed found.0 consumed)
      at ← now
      save_email found.1.id found.0.new_email at
      pure (with_email found.0.new_email at found.1))
