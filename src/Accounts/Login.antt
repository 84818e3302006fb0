-- ===== src/Accounts/Login.antt =====
-- src/modules/accounts/services/login_customer.py, login_with_google.py and staff_login.py
pub mod Google
pub mod Passwords
pub mod Reset
use be_py_eco.Prelude.{
  ◌/◌, ℕ, ◌+◌, Bool, true, false, not, ◌&&◌, Option, none, some, [], is_some, Text, codes, eq_text,
  filter_rows,
}
use be_py_eco.Common.Authentication.{staff_refresh_lifetime}
use be_py_eco.Errors.{
  key_error, accounts, failure, does_not_exist, invalid_credentials, invalid_google_token,
  google_email_not_verified,
}
use be_py_eco.Schema.{Customer, google, eq_provider, LoginMethod, Staff}
use be_py_eco.Integrations.GoogleOauth.{Verdict, accepted, rejected, missing_claim, verify_id_token}
use be_py_eco.World.{
  raise, branch, Action, pure, reads, the_row, maybe_row, raise_if, modify, atomic, now, next_id,
  next_token, Services, Claims, GoogleProfile, create_customer, create_login_method, ◌>>=◌, ◌>>◌,
}
use be_py_eco.Accounts.Tokens.{normalize_email, customer_by_id, save_customer}
use be_py_eco.Accounts.Register.{new_customer, verified}
use be_py_eco.Accounts.Password.{is_password_of, is_active_email}
use be_py_eco.Accounts.Sessions.{issue_session}

abbrev pub is_active_staff_email : Text → Staff → Bool
is_active_staff_email email s = eq_text s.email email && s.is_active

abbrev pub is_google_account : Text → LoginMethod → Bool
is_google_account subject m = eq_provider m.provider google && eq_text m.provider_subject_id subject

-- `LoginMethod.objects.create(provider=GOOGLE, …)`
unfoldable pub create_google_method : ℕ → Text → Action LoginMethod
unfolding create_login_method
create_google_method customer subject = do
  id ← next_id
  create_login_method (record {
    id = id;
    customer = customer;
    provider = google;
    password_hash = [];
    provider_subject_id = subject;
  })

-- `timezone.now() if profile.email_verified else None`
unfoldable pub verification_time : Bool → Action (Option ℕ)
verification_time true = do at ← now; pure (some at)
verification_time false = pure none

-- what is done with the customer that has the profile's email, or with the lack of one; `at` is
-- the default that `get_or_create` was given
unfoldable pub link_customer : GoogleProfile → Option ℕ → Option Customer → Action Customer
link_customer profile at none = do id ← next_id; create_customer (new_customer id profile.email at)
link_customer profile at (some customer) = do
  raise_if (not profile.email_verified) (accounts google_email_not_verified)
  branch (is_some customer.email_verified_at) (pure customer) (do
    verified_at ← now
    modify (save_customer customer.id (verified verified_at))
    pure (verified verified_at customer))

-- the customer of a Google account: the one that is linked, or one that is linked now
unfoldable pub google_customer : GoogleProfile → Option LoginMethod → Action Customer
google_customer profile (some method) = do
  rows ← reads (customer_by_id method.customer)
  the_row rows (failure does_not_exist)
google_customer profile none = do
  at ← verification_time profile.email_verified
  rows ← reads (λ db. filter_rows (λ c. eq_text c.email profile.email) db.customers)
  existing ← maybe_row rows
  customer ← link_customer profile at existing
  create_google_method customer.id profile.subject_id
  pure customer

-- `except GoogleOAuthError: raise InvalidGoogleTokenError`
abbrev pub google_profile : Verdict → Action GoogleProfile
google_profile (accepted profile) = pure profile
google_profile rejected = raise (accounts invalid_google_token)
google_profile missing_claim = raise (failure key_error)

module _ (sv : Services) where
  open sv use {check_password, encode_refresh, encode_access}

  -- `(customer, access_token, refresh_token)`
  unfoldable pub login_customer : Text → Text → Action (Customer × Text × Text)
  login_customer email password = do
    rows ← reads (λ db. filter_rows (is_active_email (normalize_email email)) db.customers)
    customer ← the_row rows (accounts invalid_credentials)
    methods ← reads (λ db. filter_rows (is_password_of customer.id) db.login_methods)
    method ← the_row methods (accounts invalid_credentials)
    raise_if (not (check_password password method.password_hash)) (accounts invalid_credentials)
    tokens ← issue_session sv customer
    pure (customer, tokens.0, tokens.1)

  unfoldable pub login_with_google : Text → Action (Customer × Text × Text)
  unfolding google_customer link_customer create_google_method verification_time
  login_with_google id_token = do
    profile ← google_profile (verify_id_token sv id_token)
    customer ← atomic (do
      methods ← reads (λ db. filter_rows (is_google_account profile.subject_id) db.login_methods)
      method ← maybe_row methods
      google_customer profile method)
    tokens ← issue_session sv customer
    pure (customer, tokens.0, tokens.1)

  -- Staff have no `Session` row.
  unfoldable pub login_staff : Text → Text → Action (Staff × Text × Text)
  login_staff email password = do
    rows ← reads (λ db. filter_rows (is_active_staff_email (normalize_email email)) db.staff)
    staff ← the_row rows (accounts invalid_credentials)
    raise_if (not (check_password password staff.password_hash)) (accounts invalid_credentials)
    jti ← next_token
    issued ← now
    let refresh : Claims = record {
      jti = jti;
      user_id = staff.id;
      actor_type = some (codes "staff");
      exp = (issued + staff_refresh_lifetime) / 1000000;
    }
    pure (staff, encode_access refresh, encode_refresh refresh)
