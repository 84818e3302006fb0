-- ===== src/Accounts/Login/Passwords.antt =====
-- Signing in with a password: after a registration.
use be_py_eco.Prelude.{
  ◌≡◌, refl, sym, ap, true, false, none, List, [], ◌∷◌, ◌++◌, arith, ==_refl, Text, eq_text_iff,
  eq_text_refl, filter_rows, exists_row,
}
use be_py_eco.Schema.{Customer, LoginMethod, Provider}
use be_py_eco.World.{World, Result, ok, Services, clash_customer, clash_login_method, clash_session}
use be_py_eco.Prelude.Queries.{filter-append, filter-none}
use be_py_eco.Accounts.Tokens.{normalize_email}
use be_py_eco.Accounts.Register.{register_customer, new_customer}
use be_py_eco.Accounts.Password.{is_active_email, is_password_of}
use be_py_eco.Accounts.Sessions.{issue_session}
use be_py_eco.Accounts.Sessions.Rotation.{issued_session, next_claims}
use be_py_eco.Accounts.Login.{login_customer}

module _ (sv : Services) where
  -- a customer, with an access and a refresh token for a new session
  abbrev pub SignedIn : Customer → World → Result (Customer × Text × Text) → Type 0
  SignedIn c w r =
      r ≡ ok (c, sv.encode_access (next_claims sv c w), sv.encode_refresh (next_claims sv c w))

  -- what a sign-in finds, and what it answers
  pub login_customer-ok :
      (email password : Text) (w : World) (c : Customer) (m : LoginMethod)
      → filter_rows (is_active_email (normalize_email email)) w.db.customers ≡ c ∷ []
      → filter_rows (is_password_of c.id) w.db.login_methods ≡ m ∷ []
      → sv.check_password password m.password_hash ≡ true
      → exists_row (clash_session (issued_session sv c w)) w.db.sessions ≡ false
      → SignedIn c w (login_customer sv email password w).0
  unfolding login_customer issue_session issued_session
  login_customer-ok email password w c m customers methods matches fresh = ground arith

  no_such_email :
      (c : Customer) (rows : List Customer)
      → exists_row (clash_customer c) rows ≡ false
      → exists_row (is_active_email c.email) rows ≡ false
  unfolding exists_row
  no_such_email c [] h = refl
  no_such_email c (r ∷ rows) h =
      ground (arith, eq_text_iff r.email c.email, eq_text_iff c.email r.email, no_such_email c rows)

  no_such_method :
      (m : LoginMethod) (rows : List LoginMethod)
      → m.provider ≡ Provider.password
      → exists_row (clash_login_method m) rows ≡ false
      → exists_row (is_password_of m.customer) rows ≡ false
  unfolding exists_row
  no_such_method m [] p h = refl
  no_such_method m (r ∷ rows) p h = ground (arith, no_such_method m rows)

  registered_method : Text → World → LoginMethod
  registered_method password w = record {
    id = w.ids 1;
    customer = w.ids 0;
    provider = Provider.password;
    password_hash = sv.make_password (w.tokens 0) password;
    provider_subject_id = [];
  }

  register_customer-rows :
      (email password raw : Text) (w : World) (c : Customer)
      → (register_customer sv email password w).0 ≡ ok (c, raw)
      → let w' = (register_customer sv email password w).1 in
        (c ≡ new_customer (w.ids 0) (normalize_email email) none)
        × (w'.db.customers ≡ w.db.customers ++ c ∷ [])
        × (exists_row (clash_customer c) w.db.customers ≡ false)
        × (w'.db.login_methods ≡ w.db.login_methods ++ registered_method password w ∷ [])
        × (exists_row (clash_login_method (registered_method password w)) w.db.login_methods
            ≡ false)
  unfolding register_customer registered_method
  register_customer-rows email password raw w c h =
      (ground arith, ground arith, ground arith, ground arith, ground arith)

  -- The email and the password of a registration sign the registered customer in, as long as the
  -- database keeps the rows and the new session's id and hash are fresh.
  pub register-then-login :
      (email password raw : Text) (w w' : World) (c : Customer)
      → (register_customer sv email password w).0 ≡ ok (c, raw)
      → w'.db ≡ (register_customer sv email password w).1.db
      → exists_row (clash_session (issued_session sv c w')) w'.db.sessions ≡ false
      → SignedIn c w' (login_customer sv email password w').0
  unfolding registered_method
  register-then-login email password raw w w' c h same fresh =
      let (made, rows, free, methods, free_method) =
        register_customer-rows email password raw w c h in
      let m = registered_method password w in
      let email_row : c.email ≡ normalize_email email = ap (λ x. x.email) made in
      let id_row : c.id ≡ w.ids 0 = ap (λ x. x.id) made in
      let active : c.is_active ≡ true = ap (λ x. x.is_active) made in
      let no_email = no_such_email c w.db.customers free in
      let no_method = no_such_method m w.db.login_methods refl free_method in
      let customers : filter_rows (is_active_email (normalize_email email)) w'.db.customers
          ≡ c ∷ [] =
        rw (same, rows, sym email_row, filter-append, filter-none _ _ no_email)
          (unfold filter_rows in rw (eq_text_refl c.email, active) refl) in
      let own : filter_rows (is_password_of c.id) w'.db.login_methods ≡ m ∷ [] =
        rw (same, methods, id_row, filter-append)
          (rw (filter-none _ _ no_method) (unfold filter_rows in rw (==_refl (w.ids 0)) refl)) in
      login_customer-ok email password w' c m customers own
        (sv.check_password-make_password (w.tokens 0) password) fresh
