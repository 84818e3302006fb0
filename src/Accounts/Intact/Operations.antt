-- ===== src/Accounts/Intact/Operations.antt =====
-- The operations that write customers.
use be_py_eco.Prelude.{
  ℕ, ◌≡◌, refl, Bool, true, false, not, ◌&&◌, Option, none, some, List, [], ◌∷◌, ◌++◌, arith, ◌==◌,
  Text, exists_row, update_rows,
}
use be_py_eco.Schema.{Customer, LoginMethod, Purpose, Staff}
use be_py_eco.World.{create_customer, Keeps, Services, GoogleProfile, modify, clash_customer}
use be_py_eco.Prelude.Queries.{Unique-update, Unique-append}
use be_py_eco.Integrations.GoogleOauth.{Verdict, accepted, rejected, missing_claim}
use be_py_eco.Common.RequestContext.{RequestMeta}
use be_py_eco.Audit.{write_audit_log}
use be_py_eco.Accounts.Tokens.{save_customer, find_token, issue_token, generate_token}
use be_py_eco.Accounts.Register.{
  create_password_method, register_customer, register_rows, verify_email,
}
use be_py_eco.Accounts.EmailChange.{save_email, with_email, confirm_email_change}
use be_py_eco.Accounts.Sessions.{issue_session, revoke_all_sessions}
use be_py_eco.Accounts.Login.{
  google_profile, create_google_method, google_customer, verification_time, login_with_google,
  link_customer,
}
use be_py_eco.Accounts.StaffActions.{disable_customer}
use be_py_eco.Accounts.UniqueEmails.{UniqueEmails, clash_customer_comm, save_email-UniqueEmails}
use be_py_eco.Accounts.Intact.{Safe, Extends, customer_ids}
use be_py_eco.Accounts.Intact.Elsewhere.{elsewhere_rules}
use be_py_eco.Localization.{validate_locale_and_currency, update_locale_preference}

none_taken :
    (p : Customer → Bool) (rows : List Customer) → exists_row (λ c. false && p c) rows ≡ false
unfolding exists_row
none_taken p [] = refl
none_taken p (r ∷ rows) = none_taken p rows

same_ids :
    (q : Customer → Bool) (f : Customer → Customer)
    → ((c : Customer) → (f c).id ≡ c.id)
    → (cs : List Customer) → customer_ids (update_rows q f cs) ≡ customer_ids cs
unfolding customer_ids update_rows
same_ids q f same [] = refl
same_ids q f same (c ∷ cs) = ground (arith, same c, same_ids q f same cs)

more_ids :
    (ids : List ℕ) (c : Customer) (cs : List Customer)
    → Extends ids (customer_ids cs)
    → Extends ids (customer_ids (cs ++ c ∷ []))
unfolding customer_ids Extends
more_ids [] c cs e = tt
more_ids (i ∷ ids) c [] e = absurd e
more_ids (i ∷ ids) c (d ∷ cs) e = (e.0, more_ids ids c cs e.1)

-- a customer that is saved with the same id and email
pub save_customer-Safe :
    (id : ℕ) (f : Customer → Customer)
    → ((c : Customer) → (f c).id ≡ c.id)
    → ((c : Customer) → (f c).email ≡ c.email)
    → Safe (modify (save_customer id f))
unfolding Safe
save_customer-Safe id f same_id same_email start w u =
    let apart =
      Unique-update clash_customer (λ (c : Customer). c.id == id) (λ (c : Customer). false) f
        clash_customer_comm (λ a b p q. ground arith)
        (λ a b p q apart free. rw (same_id a, same_email a) apart) w.db.customers
        (none_taken (λ (c : Customer). not (c.id == id)) w.db.customers) u.customers_apart in
    ground (arith, apart, same_ids (λ (c : Customer). c.id == id) f same_id w.db.customers)

pub create_customer-Safe : (c : Customer) → Safe (create_customer c)
unfolding Safe create_customer
create_customer-Safe c start w u = ground (
  arith,
  Unique-append clash_customer c w.db.customers clash_customer_comm,
  more_ids (customer_ids start.customers) c w.db.customers,
)

pub save_email-Safe : (id : ℕ) (email : Text) (at : ℕ) → Safe (save_email id email at)
unfolding Safe save_email Keeps
save_email-Safe id email at start w u =
    let apart : UniqueEmails (save_email id email at w).1.db =
      save_email-UniqueEmails id email at w u.customers_apart in
    ground (
      arith,
      apart,
      same_ids (λ (c : Customer). c.id == id) (with_email email at) (λ c. refl) w.db.customers,
    )

pub ruleset customer_rules =
    (elsewhere_rules, save_customer-Safe, create_customer-Safe, save_email-Safe)

verification_time-Safe : (b : Bool) → Safe (verification_time b)
unfolding verification_time
verification_time-Safe true = search customer_rules
verification_time-Safe false = search customer_rules

link_customer-Safe :
    (profile : GoogleProfile) (at : Option ℕ) (existing : Option Customer)
    → Safe (link_customer profile at existing)
unfolding link_customer
link_customer-Safe profile at none = search customer_rules depth 20
link_customer-Safe profile at (some customer) = search customer_rules depth 20

google_customer-Safe :
    (profile : GoogleProfile) (method : Option LoginMethod) → Safe (google_customer profile method)
unfolding google_customer create_google_method
google_customer-Safe profile (some method) = search customer_rules
google_customer-Safe profile none =
    search (customer_rules, verification_time-Safe, link_customer-Safe) depth 30

google_profile-Safe : (v : Verdict) → Safe (google_profile v)
google_profile-Safe (accepted profile) = search customer_rules
google_profile-Safe rejected = search customer_rules
google_profile-Safe missing_claim = search customer_rules

pub update_locale_preference-Safe :
    (customer : Customer) (locale currency : Text)
    → Safe (update_locale_preference customer locale currency)
unfolding update_locale_preference validate_locale_and_currency
update_locale_preference-Safe customer locale currency = search customer_rules depth 20

module _ (sv : Services) where
  pub find_token-Safe : (p : Purpose) (raw : Text) → Safe (find_token sv p raw)
  unfolding find_token
  find_token-Safe p raw = search customer_rules depth 20

  pub issue_session-Safe : (c : Customer) → Safe (issue_session sv c)
  unfolding issue_session
  issue_session-Safe c = search customer_rules depth 20

  pub verify_email-Safe : (raw : Text) → Safe (verify_email sv raw)
  unfolding verify_email
  verify_email-Safe raw = search (customer_rules, find_token-Safe) depth 20

  pub confirm_email_change-Safe : (raw : Text) → Safe (confirm_email_change sv raw)
  unfolding confirm_email_change
  confirm_email_change-Safe raw = search (customer_rules, find_token-Safe) depth 20

  pub login_with_google-Safe : (id_token : Text) → Safe (login_with_google sv id_token)
  unfolding login_with_google
  login_with_google-Safe id_token =
      search (customer_rules, google_profile-Safe, google_customer-Safe, issue_session-Safe) depth
        30

  pub register_customer-Safe : (email password : Text) → Safe (register_customer sv email password)
  unfolding register_customer register_rows create_password_method issue_token generate_token
  register_customer-Safe email password = search customer_rules depth 40

  pub disable_customer-Safe :
      (actor : Staff) (id : ℕ) (reason : Text) (request : Option RequestMeta)
      → Safe (disable_customer actor id reason request)
  unfolding disable_customer revoke_all_sessions write_audit_log
  disable_customer-Safe actor id reason request = search customer_rules depth 30
