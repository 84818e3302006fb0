-- ===== src/Accounts/Login/Google.antt =====
-- Signing in with Google.
use be_py_eco.Prelude.{
  ◌/◌, ◌+◌, ◌≡◌, false, some, [], ◌∷◌, ◌++◌, arith, Text, eq_text, filter_rows, exists_row,
}
use be_py_eco.Integrations.GoogleOauth.{accepted, verify_id_token}
use be_py_eco.Errors.{accounts, google_email_not_verified}
use be_py_eco.Schema.{Customer, LoginMethod}
use be_py_eco.Config.Settings.{refresh_token_lifetime}
use be_py_eco.World.{Claims, World, ok, err, Services, GoogleProfile, clash_session}
use be_py_eco.Accounts.Tokens.{customer_by_id}
use be_py_eco.Accounts.Sessions.{customer_actor_type, issue_session}
use be_py_eco.Accounts.Sessions.Rotation.{issued_session}
use be_py_eco.Accounts.Login.{is_google_account, login_with_google}

module _ (sv : Services) (id_token : Text) (w : World) (profile : GoogleProfile) where
  -- An unverified Google email whose account no sign-in method has yet is not linked to the one
  -- customer that has this email: the sign-in is refused and the database is as before.
  pub unverified_email_not_linked :
      (c : Customer)
      → verify_id_token sv id_token ≡ accepted profile
      → profile.email_verified ≡ false
      → filter_rows (is_google_account profile.subject_id) w.db.login_methods ≡ []
      → filter_rows (λ r. eq_text r.email profile.email) w.db.customers ≡ c ∷ []
      → ((login_with_google sv id_token w).0 ≡ err (accounts google_email_not_verified))
        × ((login_with_google sv id_token w).1.db ≡ w.db)
  unfolding login_with_google
  unverified_email_not_linked c signed unverified unlinked existing = ground arith

  google_claims : Customer → Claims
  google_claims c = record {
    jti = w.tokens 0;
    user_id = c.id;
    actor_type = some customer_actor_type;
    exp = (w.clock 0 + refresh_token_lifetime) / 1000000;
  }

  -- A disabled customer with a linked Google account signs in: a new session is issued, if its id
  -- and hash are fresh.
  pub disabled_customer_signs_in :
      (m : LoginMethod) (c : Customer)
      → verify_id_token sv id_token ≡ accepted profile
      → filter_rows (is_google_account profile.subject_id) w.db.login_methods ≡ m ∷ []
      → customer_by_id m.customer w.db ≡ c ∷ []
      → c.is_active ≡ false
      → exists_row (clash_session (issued_session sv c w)) w.db.sessions ≡ false
      → (tokens : Text × Text) × ((login_with_google sv id_token w).0 ≡ ok (c, tokens.0, tokens.1))
        × ((login_with_google sv id_token w).1.db.sessions
            ≡ w.db.sessions ++ issued_session sv c w ∷ [])
  unfolding login_with_google issue_session issued_session google_claims
  disabled_customer_signs_in m c signed linked found inactive fresh = (
    (sv.encode_access (google_claims c), sv.encode_refresh (google_claims c)),
    ground arith,
    ground arith,
  )
