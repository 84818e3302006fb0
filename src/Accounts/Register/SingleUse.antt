-- ===== src/Accounts/Register/SingleUse.antt =====
-- A verification token is used once.
use be_py_eco.Prelude.{◌≡◌, inl, inr, arith, ◌==◌, Text, update_rows}
use be_py_eco.Errors.{accounts, invalid_verification_token}
use be_py_eco.Schema.{Customer, VerificationToken, email_verification}
use be_py_eco.World.{World, ok, err, Services, Result-cases}
use be_py_eco.Accounts.Tokens.{consume, find_token}
use be_py_eco.Accounts.Tokens.Lookup.{find_token-FoundToken, find_token-db, find_token-consumed}
use be_py_eco.Accounts.Register.{verify_email}

module _ (sv : Services) where
  verify_email-tokens :
      (raw : Text) (w : World) (t : VerificationToken) (c : Customer)
      → (find_token sv email_verification raw w).0 ≡ ok (t, c)
      → (verify_email sv raw w).1.db.verification_tokens
        ≡ update_rows
            (λ r. r.id == t.id)
            (consume ((find_token sv email_verification raw w).1.clock 0))
            w.db.verification_tokens
  unfolding verify_email
  verify_email-tokens raw w t c e = ground (arith, find_token-db sv email_verification raw w)

  verify_email-rejected :
      (raw : Text) (w : World)
      → (find_token sv email_verification raw w).0 ≡ err (accounts invalid_verification_token)
      → (verify_email sv raw w).0 ≡ err (accounts invalid_verification_token)
  unfolding verify_email
  verify_email-rejected raw w e = ground arith

  verify_email-found :
      (raw : Text) (w : World) (c : Customer)
      → (verify_email sv raw w).0 ≡ ok c
      → (found : VerificationToken × Customer) × ((find_token sv email_verification raw w).0
          ≡ ok found)
  unfolding verify_email
  verify_email-found raw w c h = elim (Result-cases (find_token sv email_verification raw w).0) [
    | inl found ↦ found
    | inr (e, p) ↦ absurd (ground arith)
  ]

  -- A token that verified an email is refused afterwards.
  pub verify_email_single_use :
      (raw : Text) (w : World) (c : Customer)
      → (verify_email sv raw w).0 ≡ ok c
      → (verify_email sv raw (verify_email sv raw w).1).0
        ≡ err (accounts invalid_verification_token)
  verify_email_single_use raw w c h =
      let ((t, d), e) = verify_email-found raw w c h in
      verify_email-rejected raw (verify_email sv raw w).1 (
        find_token-consumed sv email_verification raw w (verify_email sv raw w).1 t
          ((find_token sv email_verification raw w).1.clock 0)
          (find_token-FoundToken sv email_verification raw w t d e).only_token
          (verify_email-tokens raw w t d e))
