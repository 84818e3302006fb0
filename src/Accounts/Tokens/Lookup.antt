-- ===== src/Accounts/Tokens/Lookup.antt =====
-- What a token lookup found, and that a consumed token is not found again.
use be_py_eco.Prelude.{
  ℕ, ◌≡◌, false, [], ◌∷◌, arith, ltb, ◌==◌, ==_refl, Text, filter_rows, update_rows,
}
use be_py_eco.Errors.{accounts, invalid_verification_token}
use be_py_eco.Schema.{Customer, VerificationToken, Purpose}
use be_py_eco.World.{World, ok, err, Services}
use be_py_eco.Prelude.Queries.{filter-update_one}
use be_py_eco.Accounts.Tokens.{is_open_token, consume, customer_by_id, hash_token, find_token}

module _ (sv : Services) where
  -- what a successful lookup has seen in the world that it began in
  pub record FoundToken (purpose : Purpose) (raw : Text) (w : World) (t : VerificationToken)
      (c : Customer) : Type 0 where
    pub only_token :
        filter_rows (is_open_token (hash_token sv raw) purpose) w.db.verification_tokens ≡ t ∷ []
    pub only_customer : customer_by_id t.customer w.db ≡ c ∷ []
    pub in_time : ltb t.expires_at (w.clock 0) ≡ false

  pub find_token-FoundToken :
      (purpose : Purpose) (raw : Text) (w : World) (t : VerificationToken) (c : Customer)
      → (find_token sv purpose raw w).0 ≡ ok (t, c)
      → FoundToken purpose raw w t c
  unfolding find_token
  find_token-FoundToken purpose raw w t c h = ground arith

  pub find_token-db :
      (purpose : Purpose) (raw : Text) (w : World) → (find_token sv purpose raw w).1.db ≡ w.db
  unfolding find_token
  find_token-db purpose raw w = ground arith

  pub find_token-consumed :
      (purpose : Purpose) (raw : Text) (w w' : World) (t : VerificationToken) (at : ℕ)
      → filter_rows (is_open_token (hash_token sv raw) purpose) w.db.verification_tokens ≡ t ∷ []
      → w'.db.verification_tokens
        ≡ update_rows (λ r. r.id == t.id) (consume at) w.db.verification_tokens
      → (find_token sv purpose raw w').0 ≡ err (accounts invalid_verification_token)
  unfolding find_token
  find_token-consumed purpose raw w w' t at e e' =
      let gone =
        filter-update_one (is_open_token (hash_token sv raw) purpose) (λ r. r.id == t.id)
          (consume at) w.db.verification_tokens t (λ r. ground arith) (==_refl t.id) e in
      rw e' (rw gone)
