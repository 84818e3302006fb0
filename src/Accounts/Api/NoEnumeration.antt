-- ===== src/Accounts/Api/NoEnumeration.antt =====
-- What the answer to a request for a password reset tells of the account.
use be_py_eco.Prelude.{
  ◌≡◌, refl, inl, inr, Bool, true, false, ◌&&◌, ◌||◌, some, List, [], ◌∷◌, if◌then◌else◌,
  filter_rows, arith, ◌==◌, Text, eq_text, eq_text_iff, eq_text_refl, exists_row,
}
use be_py_eco.Schema.{Customer, VerificationToken}
use be_py_eco.Errors.{failure, smtp_error}
use be_py_eco.World.{World, ok, err, Services, clash_customer}
use be_py_eco.Prelude.Queries.{filter-Unique}
use be_py_eco.Common.Http.{Framework, Request, empty_response}
use be_py_eco.Accounts.Tokens.{normalize_email, hash_token, issue_token, generate_token}
use be_py_eco.Accounts.Password.{is_active_email, answer_reset, request_password_reset}
use be_py_eco.Accounts.UniqueEmails.{UniqueEmails}
use be_py_eco.Accounts.Api.Forms.{request_reset_form}
use be_py_eco.Accounts.Api.Storefront.{request_reset_view}

same_email :
    (email : Text) (a b : Customer)
    → is_active_email email a ≡ true
    → is_active_email email b ≡ true
    → clash_customer a b ≡ true
same_email email a b p q =
    ground (arith, eq_text_iff a.email email, eq_text_iff b.email email, eq_text_refl email)

exists-none :
    (p : Customer → Bool) (rs : List Customer) → filter_rows p rs ≡ [] → exists_row p rs ≡ false
unfolding filter_rows exists_row
exists-none p [] h = refl
exists-none p (r ∷ rs) h = ground (arith, exists-none p rs)

exists-one :
    (p : Customer → Bool) (rs : List Customer) (c : Customer)
    → filter_rows p rs ≡ c ∷ []
    → exists_row p rs ≡ true
unfolding filter_rows exists_row
exists-one p [] c h = cc
exists-one p (r ∷ rs) c h = ground (arith, exists-one p rs c)

module _ (sv : Services) (fw : Framework) where
  -- the next token's id or hash is in use
  abbrev pub in_use : World → VerificationToken → Bool
  in_use w t = w.ids 0 == t.id || eq_text (hash_token sv (w.tokens 0)) t.token_hash

  answer_reset-sent :
      (c : Customer) (w : World)
      → exists_row (in_use w) w.db.verification_tokens ≡ false
      → (answer_reset sv (some c) w).0
        ≡ (if w.mail_refused 0 then err (failure smtp_error) else ok tt)
  unfolding answer_reset issue_token generate_token
  answer_reset-sent c w fresh = ground arith

  -- A valid email is answered with 202 and no body, whether or not an active customer has it, but
  -- for a mail that the server refuses: the request then fails, exactly if an active customer has
  -- the email. Customers are apart in email, and the id and the hash of the next token are not in
  -- use.
  pub request_reset_view-answer :
      (request : Request) (email : Text) (w : World)
      → request_reset_form fw request.body ≡ some email
      → UniqueEmails w.db
      → exists_row (in_use w) w.db.verification_tokens ≡ false
      → (request_reset_view sv fw request w).0 ≡ (
          if exists_row (is_active_email (normalize_email email)) w.db.customers && w.mail_refused 0
          then err (failure smtp_error)
          else ok (empty_response 202))
  unfolding request_reset_view request_password_reset answer_reset
  request_reset_view-answer request email w valid u fresh =
      let p = is_active_email (normalize_email email) in
      elim (filter-Unique clash_customer p (same_email (normalize_email email)) w.db.customers u) [
        | inl e ↦ rw (valid, e, exists-none p w.db.customers e) refl
        | inr (c, e) ↦
            rw (valid, e, exists-one p w.db.customers c e)
              (ground (arith, answer_reset-sent c w fresh))
      ]
