-- ===== src/Accounts/Tokens.antt =====
-- The shared verification token (src/modules/accounts/services/verification_tokens.py), and the
-- lookup and the issuing that its three flows share.
pub mod Lookup
use be_py_eco.Prelude.{
  ℕ, ◌+◌, ◌*◌, Bool, ◌&&◌, none, some, List, ltb, ◌==◌, Text, eq_text, strip, lower, filter_rows,
  update_rows,
}
use be_py_eco.Errors.{accounts, invalid_verification_token}
use be_py_eco.Schema.{Database, Customer, VerificationToken, Purpose, eq_purpose, is_null}
use be_py_eco.World.{
  Action, pure, reads, the_row, raise_if, now, next_id, next_token, Services,
  create_verification_token, ◌>>=◌, ◌>>◌,
}

-- microseconds in an hour
abbrev hour : ℕ
hour = 3600000000

abbrev pub email_verification_token_ttl : ℕ
email_verification_token_ttl = 24 * hour

abbrev pub password_reset_token_ttl : ℕ
password_reset_token_ttl = hour

abbrev pub email_change_token_ttl : ℕ
email_change_token_ttl = 24 * hour

-- `email.strip().lower()`
unfoldable pub normalize_email : Text → Text
unfolding strip lower
normalize_email email = lower (strip email)

-- the query for an unconsumed token of a purpose
abbrev pub is_open_token : Text → Purpose → VerificationToken → Bool
is_open_token hash purpose t =
    eq_text t.token_hash hash && eq_purpose t.purpose purpose && is_null t.consumed_at

abbrev pub consume : ℕ → VerificationToken → VerificationToken
consume at t = record t { consumed_at = some at }

-- `token.consumed_at = at; token.save(update_fields=["consumed_at"])`
abbrev pub save_consumed : VerificationToken → ℕ → Database → Database
save_consumed t at db = record db {
  verification_tokens = update_rows (λ r. r.id == t.id) (consume at) db.verification_tokens;
}

-- `token.customer`
abbrev pub customer_by_id : ℕ → Database → List Customer
customer_by_id id db = filter_rows (λ c. c.id == id) db.customers

abbrev pub save_customer : ℕ → (Customer → Customer) → Database → Database
save_customer id f db = record db { customers = update_rows (λ r. r.id == id) f db.customers }

module _ (sv : Services) where
  open sv use {sha256_hex, make_password}

  unfoldable pub hash_token : Text → Text
  hash_token raw = sha256_hex raw

  -- the raw token and its hash
  unfoldable pub generate_token : Action (Text × Text)
  unfolding hash_token
  generate_token = do raw ← next_token; pure (raw, hash_token raw)

  -- the lookup with which each flow begins: an open token of the purpose, with its customer, that
  -- has not expired
  unfoldable pub find_token : Purpose → Text → Action (VerificationToken × Customer)
  unfolding hash_token
  find_token purpose raw = do
    rows ← reads (λ db. filter_rows (is_open_token (hash_token raw) purpose) db.verification_tokens)
    token ← the_row rows (accounts invalid_verification_token)
    customers ← reads (customer_by_id token.customer)
    customer ← the_row customers (accounts invalid_verification_token)
    at ← now
    raise_if (ltb token.expires_at at) (accounts invalid_verification_token)
    pure (token, customer)

  -- `generate_token()` and `VerificationToken.objects.create(…)`; the result is the raw token
  unfoldable pub issue_token : ℕ → Purpose → Text → ℕ → Action Text
  unfolding generate_token create_verification_token
  issue_token customer purpose new_email ttl = do
    tokens ← generate_token
    id ← next_id
    at ← now
    create_verification_token (record {
      id = id;
      customer = customer;
      purpose = purpose;
      token_hash = tokens.1;
      new_email = new_email;
      expires_at = at + ttl;
      consumed_at = none;
    })
    pure tokens.0
