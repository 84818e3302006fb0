-- ===== src/Accounts/Login/Reset.antt =====
-- Signing in with a password that was reset.
use be_py_eco.Prelude.{
  ℕ, suc, ◌≡◌, refl, ap, ◌∙◌, true, false, [], ◌∷◌, ◌++◌, arith, ◌==◌, ==_refl, Text, filter_rows,
  exists_row, update_rows,
}
use be_py_eco.Schema.{Customer, LoginMethod, Provider, VerificationToken, password_reset}
use be_py_eco.World.{World, ok, Services, clash_session}
use be_py_eco.Prelude.Queries.{
  filter-append, filter-update, update_one, missing, one, many, Found-cases,
}
use be_py_eco.Accounts.Tokens.{save_consumed, normalize_email, find_token}
use be_py_eco.Accounts.Tokens.Lookup.{find_token-db}
use be_py_eco.Accounts.Password.{
  is_active_email, is_password_of, set_password, update_or_create_password, confirm_password_reset,
}
use be_py_eco.Accounts.Register.{create_password_method}
use be_py_eco.Accounts.Password.SingleUse.{confirm-found}
use be_py_eco.Accounts.Sessions.Rotation.{issued_session}
use be_py_eco.Accounts.Login.{login_customer}
use be_py_eco.Accounts.Login.Passwords.{SignedIn, login_customer-ok}

module _ (sv : Services) where
  -- the customer's one password method, and that the password matches it
  HasPassword : ℕ → Text → World → Type 0
  HasPassword customer password w =
      (m : LoginMethod) × (filter_rows (is_password_of customer) w.db.login_methods ≡ m ∷ [])
      × (sv.check_password password m.password_hash ≡ true)

  saved_method : ℕ → Text → World → LoginMethod
  saved_method customer password w = record {
    id = w.ids 0;
    customer = customer;
    provider = Provider.password;
    password_hash = sv.make_password (w.tokens 0) password;
    provider_subject_id = [];
  }

  created :
      (customer : ℕ) (password : Text) (w : World)
      → filter_rows (is_password_of customer) w.db.login_methods ≡ []
      → (update_or_create_password sv customer password w).0 ≡ ok tt
      → (update_or_create_password sv customer password w).1.db.login_methods
        ≡ w.db.login_methods ++ saved_method customer password w ∷ []
  unfolding update_or_create_password saved_method set_password create_password_method
  created customer password w e h = ground arith

  saved :
      (customer : ℕ) (password : Text) (w : World) (m : LoginMethod)
      → filter_rows (is_password_of customer) w.db.login_methods ≡ m ∷ []
      → (update_or_create_password sv customer password w).1.db.login_methods
        ≡ update_rows
            (λ r. r.id == m.id)
            (λ r. record r { password_hash = sv.make_password (w.tokens 0) password })
            w.db.login_methods
  unfolding update_or_create_password set_password
  saved customer password w m e = ground arith

  update_or_create_password-HasPassword :
      (customer : ℕ) (password : Text) (w : World)
      → (update_or_create_password sv customer password w).0 ≡ ok tt
      → HasPassword customer password (update_or_create_password sv customer password w).1
  unfolding HasPassword saved_method
  update_or_create_password-HasPassword customer password w h =
      let p = is_password_of customer in
      let matches = sv.check_password-make_password (w.tokens 0) password in
      elim (Found-cases (filter_rows p w.db.login_methods)) [
        | missing e ↦ (
          saved_method customer password w,
          rw (created customer password w e h, filter-append, e)
              (unfold filter_rows in rw (==_refl customer) refl),
          matches,
        )
        | one m e ↦
            let set = λ (r : LoginMethod). record r {
              password_hash = sv.make_password (w.tokens 0) password;
            } in
            (
              set m,
              rw (saved customer password w m e) (
                  filter-update p (λ r. r.id == m.id) set w.db.login_methods (λ r. refl)
                  ∙ ap (update_rows (λ r. r.id == m.id) set) e
                  ∙ update_one (λ r. r.id == m.id) set m (==_refl m.id)),
              matches,
            )
        | many a b rest e ↦ absurd (unfold update_or_create_password in ground arith)
      ]

  -- the world in which a confirmation saves the password
  saving : Text → VerificationToken → World → World
  saving raw t w =
      let w1 = (find_token sv password_reset raw w).1 in
      record w1 { db = save_consumed t (w1.clock 0) w1.db; clock = λ n. w1.clock (suc n) }

  confirm-saved :
      (raw password : Text) (w : World) (t : VerificationToken) (c d : Customer)
      → (find_token sv password_reset raw w).0 ≡ ok (t, d)
      → (confirm_password_reset sv raw password w).0 ≡ ok c
      → (c ≡ d)
        × ((update_or_create_password sv d.id password (saving raw t w)).0 ≡ ok tt)
        × ((confirm_password_reset sv raw password w).1.db
            ≡ (update_or_create_password sv d.id password (saving raw t w)).1.db)
  unfolding confirm_password_reset saving
  confirm-saved raw password w t c d e h = (ground arith, ground arith, ground arith)

  saving-customers :
      (raw password : Text) (id : ℕ) (w : World) (t : VerificationToken)
      → (update_or_create_password sv id password (saving raw t w)).1.db.customers ≡ w.db.customers
  unfolding saving update_or_create_password set_password create_password_method
  saving-customers raw password id w t = ground (arith, find_token-db sv password_reset raw w)

  -- After a password was reset by its token, the new password signs in the customer, if this is
  -- the active customer with the email, as long as the database keeps the rows and the new
  -- session's id and hash are fresh.
  pub reset-then-login :
      (raw email password : Text) (w w' : World) (c : Customer)
      → filter_rows (is_active_email (normalize_email email)) w.db.customers ≡ c ∷ []
      → (confirm_password_reset sv raw password w).0 ≡ ok c
      → w'.db ≡ (confirm_password_reset sv raw password w).1.db
      → exists_row (clash_session (issued_session sv c w')) w'.db.sessions ≡ false
      → SignedIn sv c w' (login_customer sv email password w').0
  unfolding HasPassword
  reset-then-login raw email password w w' c row h same fresh =
      let ((t, d), found) = confirm-found sv raw password w c h in
      let (own, done, after) = confirm-saved raw password w t c d found h in
      let (m, method, matches) =
        update_or_create_password-HasPassword d.id password (saving raw t w) done in
      let customers : filter_rows (is_active_email (normalize_email email)) w'.db.customers
          ≡ c ∷ [] =
        rw (same, after, saving-customers raw password d.id w t) row in
      let methods : filter_rows (is_password_of c.id) w'.db.login_methods ≡ m ∷ [] =
        rw (same, after, own) method in
      login_customer-ok sv email password w' c m customers methods matches fresh
