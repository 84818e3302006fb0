-- ===== src/Accounts/Register.antt =====
-- src/modules/accounts/services/register_customer.py and verify_email.py
pub mod SingleUse
pub mod RoundTrip
use be_py_eco.Prelude.{ℕ, true, Option, none, some, [], Text}
use be_py_eco.Schema.{Customer, Provider, LoginMethod, email_verification}
use be_py_eco.World.{
  Action, pure, atomic, modify, now, next_id, next_token, send_mail, Services, create_customer,
  create_login_method, ◌>>=◌, ◌>>◌,
}
use be_py_eco.Accounts.Tokens.{
  email_verification_token_ttl, normalize_email, save_consumed, save_customer, find_token,
  issue_token,
}

-- `Customer(email=…)` with the defaults of the other fields
abbrev pub new_customer : ℕ → Text → Option ℕ → Customer
new_customer id email verified_at = record {
  id = id;
  email = email;
  email_verified_at = verified_at;
  is_active = true;
  preferred_locale = [];
  preferred_currency = [];
}

abbrev pub verified : ℕ → Customer → Customer
verified at c = record c { email_verified_at = some at }

module _ (sv : Services) where
  open sv use {make_password}

  -- `LoginMethod.objects.create(provider=PASSWORD, …)`
  unfoldable pub create_password_method : ℕ → Text → Action LoginMethod
  unfolding create_login_method
  create_password_method customer password = do
    salt ← next_token
    id ← next_id
    create_login_method (record {
      id = id;
      customer = customer;
      provider = Provider.password;
      password_hash = make_password salt password;
      provider_subject_id = [];
    })

  -- the block under `transaction.atomic()`
  unfoldable pub register_rows : Text → Text → Action (Customer × Text)
  unfolding create_customer create_password_method issue_token
  register_rows email password = do
    id ← next_id
    customer ← create_customer (new_customer id (normalize_email email) none)
    create_password_method customer.id password
    raw ← issue_token sv customer.id email_verification [] email_verification_token_ttl
    pure (customer, raw)

  unfoldable pub register_customer : Text → Text → Action (Customer × Text)
  unfolding register_rows
  register_customer email password = do
    created ← atomic (register_rows email password)
    send_mail created.0.email created.1
    pure created

  unfoldable pub verify_email : Text → Action Customer
  verify_email raw = do
    found ← find_token sv email_verification raw
    atomic (do
      consumed ← now
      modify (save_consumed found.0 consumed)
      at ← now
      modify (save_customer found.1.id (verified at))
      pure (verified at found.1))
