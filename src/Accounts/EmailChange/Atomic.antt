-- ===== src/Accounts/EmailChange/Atomic.antt =====
-- What the confirmation of a new email changes.
use be_py_eco.Prelude.{◌≡◌, inl, inr, true, arith, ◌==◌, Text, exists_row, update_rows}
use be_py_eco.Errors.{Error, accounts, invalid_verification_token, email_already_taken}
use be_py_eco.Schema.{Customer, VerificationToken, email_change}
use be_py_eco.World.{World, ok, err, Services, Result-cases}
use be_py_eco.Accounts.Tokens.{consume, find_token}
use be_py_eco.Accounts.Tokens.Lookup.{find_token-FoundToken, find_token-db, find_token-consumed}
use be_py_eco.Accounts.EmailChange.{confirm_email_change, is_taken_by_other}

module _ (sv : Services) where
  confirm-tokens :
      (raw : Text) (w : World) (t : VerificationToken) (c d : Customer)
      → (find_token sv email_change raw w).0 ≡ ok (t, d)
      → (confirm_email_change sv raw w).0 ≡ ok c
      → (confirm_email_change sv raw w).1.db.verification_tokens
        ≡ update_rows
            (λ r. r.id == t.id)
            (consume ((find_token sv email_change raw w).1.clock 0))
            w.db.verification_tokens
  unfolding confirm_email_change
  confirm-tokens raw w t c d e h = ground (arith, find_token-db sv email_change raw w)

  confirm-rejected :
      (raw : Text) (w : World)
      → (find_token sv email_change raw w).0 ≡ err (accounts invalid_verification_token)
      → (confirm_email_change sv raw w).0 ≡ err (accounts invalid_verification_token)
  unfolding confirm_email_change
  confirm-rejected raw w e = ground arith

  confirm-found :
      (raw : Text) (w : World) (c : Customer)
      → (confirm_email_change sv raw w).0 ≡ ok c
      → (found : VerificationToken × Customer) × ((find_token sv email_change raw w).0 ≡ ok found)
  unfolding confirm_email_change
  confirm-found raw w c h = elim (Result-cases (find_token sv email_change raw w).0) [
    | inl found ↦ found
    | inr (e, b) ↦ absurd (ground arith)
  ]

  -- A confirmed email change is not confirmed again with the same token.
  confirm_email_change_single_use :
      (raw : Text) (w : World) (c : Customer)
      → (confirm_email_change sv raw w).0 ≡ ok c
      → (confirm_email_change sv raw (confirm_email_change sv raw w).1).0
        ≡ err (accounts invalid_verification_token)
  confirm_email_change_single_use raw w c h =
      let ((t, d), e) = confirm-found raw w c h in
      confirm-rejected raw (confirm_email_change sv raw w).1 (
        find_token-consumed sv email_change raw w (confirm_email_change sv raw w).1 t
          ((find_token sv email_change raw w).1.clock 0)
          (find_token-FoundToken sv email_change raw w t d e).only_token
          (confirm-tokens raw w t c d e h))

  -- When another customer has the new email by then, the error is `email_already_taken` and the
  -- database is as before: the token is not consumed.
  confirm_email_change-taken :
      (raw : Text) (w : World) (t : VerificationToken) (c : Customer)
      → (find_token sv email_change raw w).0 ≡ ok (t, c)
      → exists_row (is_taken_by_other c.id t.new_email) w.db.customers ≡ true
      → ((confirm_email_change sv raw w).0 ≡ err (accounts email_already_taken))
        × ((confirm_email_change sv raw w).1.db ≡ w.db)
  unfolding confirm_email_change
  confirm_email_change-taken raw w t c e taken = ground (arith, find_token-db sv email_change raw w)

  -- Any failure of the confirmation leaves the database as it was.
  confirm_email_change_atomic :
      (raw : Text) (w : World) (e : Error)
      → (confirm_email_change sv raw w).0 ≡ err e
      → (confirm_email_change sv raw w).1.db ≡ w.db
  unfolding confirm_email_change
  confirm_email_change_atomic raw w e h = ground (arith, find_token-db sv email_change raw w)
