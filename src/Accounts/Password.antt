-- ===== src/Accounts/Password.antt =====
-- src/modules/accounts/services/password_reset.py
pub mod SingleUse
use be_py_eco.Prelude.{
  ℕ, Bool, ◌&&◌, Option, none, some, [], ◌==◌, Text, eq_text, filter_rows, update_rows,
}
use be_py_eco.Schema.{Database, Customer, Provider, eq_provider, LoginMethod, password_reset}
use be_py_eco.World.{
  Action, pure, reads, maybe_row, atomic, modify, now, next_token, send_mail, Services, ◌>>=◌, ◌>>◌,
}
use be_py_eco.Accounts.Tokens.{
  password_reset_token_ttl, normalize_email, save_consumed, find_token, issue_token,
}
use be_py_eco.Accounts.Register.{create_password_method}

abbrev pub is_password_of : ℕ → LoginMethod → Bool
is_password_of customer m = m.customer == customer && eq_provider m.provider Provider.password

abbrev pub save_password_hash : LoginMethod → Text → Database → Database
save_password_hash m hash db = record db {
  login_methods =
      update_rows (λ r. r.id == m.id) (λ r. record r { password_hash = hash }) db.login_methods;
}

abbrev pub is_active_email : Text → Customer → Bool
is_active_email email c = eq_text c.email email && c.is_active

module _ (sv : Services) where
  open sv use {make_password}

  -- an unknown email is answered like a known one
  unfoldable pub answer_reset : Option Customer → Action (Unit {0})
  answer_reset none = pure tt
  answer_reset (some customer) = do
    raw ← issue_token sv customer.id password_reset [] password_reset_token_ttl
    send_mail customer.email raw

  unfoldable pub request_password_reset : Text → Action (Unit {0})
  unfolding answer_reset issue_token
  request_password_reset email = do
    rows ← reads (λ db. filter_rows (is_active_email (normalize_email email)) db.customers)
    customer ← maybe_row rows
    answer_reset customer

  -- `LoginMethod.objects.update_or_create(customer, PASSWORD, password_hash)`
  unfoldable pub set_password : ℕ → Text → Option LoginMethod → Action (Unit {0})
  set_password customer password none = do create_password_method sv customer password; pure tt
  set_password customer password (some m) = do
    salt ← next_token
    modify (save_password_hash m (make_password salt password))

  unfoldable pub update_or_create_password : ℕ → Text → Action (Unit {0})
  unfolding set_password create_password_method
  update_or_create_password customer password = do
    rows ← reads (λ db. filter_rows (is_password_of customer) db.login_methods)
    method ← maybe_row rows
    set_password customer password method

  unfoldable pub confirm_password_reset : Text → Text → Action Customer
  unfolding update_or_create_password
  confirm_password_reset raw new_password = do
    found ← find_token sv password_reset raw
    atomic (do
      consumed ← now
      modify (save_consumed found.0 consumed)
      update_or_create_password found.1.id new_password)
    pure found.1
