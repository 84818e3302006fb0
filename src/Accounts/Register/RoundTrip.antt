-- ===== src/Accounts/Register/RoundTrip.antt =====
-- From registering to a verified email and a first login.
use be_py_eco.Prelude.{◌+◌, ◌≡◌, true, false, none, [], ◌∷◌, ◌++◌, Text, exists_row}
use be_py_eco.Schema.{Customer, VerificationToken, email_verification}
use be_py_eco.World.{World, Services, clash_customer, clash_verification_token}
use be_py_eco.Accounts.Tokens.{
  hash_token, is_open_token, email_verification_token_ttl, normalize_email,
}
use be_py_eco.Accounts.Register.{new_customer}

module _ (sv : Services) where
  -- what a registration leaves in the database
  record Registered (email : Text) (w : World) (c : Customer) (raw : Text) (w' : World)
      : Type 0 where
    token : VerificationToken
    customer_row : c ≡ new_customer (w.ids 0) (normalize_email email) none
    customers : w'.db.customers ≡ w.db.customers ++ c ∷ []
    fresh_customer : exists_row (clash_customer c) w.db.customers ≡ false
    tokens : w'.db.verification_tokens ≡ w.db.verification_tokens ++ token ∷ []
    fresh_token : exists_row (clash_verification_token token) w.db.verification_tokens ≡ false
    own_hash : token.token_hash ≡ hash_token sv raw
    open_token : is_open_token (hash_token sv raw) email_verification token ≡ true
    own_customer : token.customer ≡ c.id
    expiry : token.expires_at ≡ w.clock 0 + email_verification_token_ttl

  new_token : World → VerificationToken
  new_token w = record {
    id = w.ids 2;
    customer = w.ids 0;
    purpose = email_verification;
    token_hash = hash_token sv (w.tokens 1);
    new_email = [];
    expires_at = w.clock 0 + email_verification_token_ttl;
    consumed_at = none;
  }
