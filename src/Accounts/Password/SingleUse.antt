-- ===== src/Accounts/Password/SingleUse.antt =====
-- A password reset token is used once.
use be_py_eco.Prelude.{ℕ, ◌≡◌, inl, inr, arith, ◌==◌, Text, update_rows}
use be_py_eco.Errors.{accounts, invalid_verification_token}
use be_py_eco.Schema.{Customer, VerificationToken, password_reset}
use be_py_eco.World.{World, ok, err, Services, Result-cases}
use be_py_eco.Accounts.Tokens.{consume, find_token}
use be_py_eco.Accounts.Tokens.Lookup.{find_token-FoundToken, find_token-db, find_token-consumed}
use be_py_eco.Accounts.Password.{confirm_password_reset, update_or_create_password}

module _ (sv : Services) where
  update_or_create_password-tokens :
      (customer : ℕ) (p : Text) (w : World)
      → (update_or_create_password sv customer p w).1.db.verification_tokens
        ≡ w.db.verification_tokens
  unfolding update_or_create_password
  update_or_create_password-tokens customer p w = ground arith

  confirm-tokens :
      (raw p : Text) (w : World) (t : VerificationToken) (c d : Customer)
      → (find_token sv password_reset raw w).0 ≡ ok (t, d)
      → (confirm_password_reset sv raw p w).0 ≡ ok c
      → (confirm_password_reset sv raw p w).1.db.verification_tokens
        ≡ update_rows
            (λ r. r.id == t.id)
            (consume ((find_token sv password_reset raw w).1.clock 0))
            w.db.verification_tokens
  unfolding confirm_password_reset
  confirm-tokens raw p w t c d e h =
      ground (arith, find_token-db sv password_reset raw w, update_or_create_password-tokens d.id p)

  confirm-rejected :
      (raw p : Text) (w : World)
      → (find_token sv password_reset raw w).0 ≡ err (accounts invalid_verification_token)
      → (confirm_password_reset sv raw p w).0 ≡ err (accounts invalid_verification_token)
  unfolding confirm_password_reset
  confirm-rejected raw p w e = ground arith

  pub confirm-found :
      (raw p : Text) (w : World) (c : Customer)
      → (confirm_password_reset sv raw p w).0 ≡ ok c
      → (found : VerificationToken × Customer) × ((find_token sv password_reset raw w).0 ≡ ok found)
  unfolding confirm_password_reset
  confirm-found raw p w c h = elim (Result-cases (find_token sv password_reset raw w).0) [
    | inl found ↦ found
    | inr (e, b) ↦ absurd (ground arith)
  ]

  -- A reset token that changed a password is refused afterwards, whatever the new password is.
  pub confirm_password_reset_single_use :
      (raw p q : Text) (w : World) (c : Customer)
      → (confirm_password_reset sv raw p w).0 ≡ ok c
      → (confirm_password_reset sv raw q (confirm_password_reset sv raw p w).1).0
        ≡ err (accounts invalid_verification_token)
  confirm_password_reset_single_use raw p q w c h =
      let ((t, d), e) = confirm-found raw p w c h in
      confirm-rejected raw q (confirm_password_reset sv raw p w).1 (
        find_token-consumed sv password_reset raw w (confirm_password_reset sv raw p w).1 t
          ((find_token sv password_reset raw w).1.clock 0)
          (find_token-FoundToken sv password_reset raw w t d e).only_token
          (confirm-tokens raw p w t c d e h))
