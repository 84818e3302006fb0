-- ===== src/Tests/Accounts.antt =====
-- Runs of the accounts services.
use be_py_eco.Integrations.GoogleOauth.{claim, verify_id_token}
use be_py_eco.Accounts.Mfa.{has_confirmed_mfa}
use be_py_eco.Accounts.StaffActions.Disable.{
  disable_customer-ok, disable_customer_unaudited, disable_entry, disabled_db,
  disable_customer-get_user,
}
use be_py_eco.Accounts.Login.Google.{disabled_customer_signs_in}
use be_py_eco.Accounts.Login.Google.{unverified_email_not_linked}
use be_py_eco.Accounts.Password.SingleUse.{confirm_password_reset_single_use}
use be_py_eco.Common.Permissions.{
  has_permission, check_policy, role_allows, disable_customer_codename,
}
use be_py_eco.Accounts.StaffActions.{deactivate}
use be_py_eco.Accounts.StaffActions.{disable_customer}
use be_py_eco.Common.Authentication.{get_user}
use be_py_eco.Accounts.Login.{login_with_google}
use be_py_eco.Accounts.Password.{confirm_password_reset}
use be_py_eco.Accounts.Tokens.{customer_by_id, find_token}
use be_py_eco.Prelude.{
  ◌/◌, ℕ, zero, suc, ◌+◌, ◌≡◌, refl, ◌≢◌, Bool, true, false, none, some, [], ◌∷◌, arith, Text,
  codes, eq_text, in_texts, strip, lower, filter_rows, exists_row, update_rows,
}
use be_py_eco.Errors.{
  data_error, failure, google_email_not_verified, accounts, invalid_refresh_token,
  invalid_verification_token,
}
use be_py_eco.Config.Settings.{refresh_token_lifetime}
use be_py_eco.Schema.{google, password_reset, LoginMethod, Customer, Database, email_verification}
use be_py_eco.World.{GoogleProfile, ok, World, Claims, err}
use be_py_eco.Tests.Samples.{
  staffed, bob, carol, empty, shifted, unshifted, decode, services, world, with_token, signed_in,
  ann_claims, ann, encode,
}
use be_py_eco.Accounts.Sessions.{rotate_refresh_token}
use be_py_eco.Accounts.Sessions.Rotation.{issued_session, rotate_single_use}
use be_py_eco.Accounts.Register.{register_customer, verify_email, verified}
use be_py_eco.Accounts.Register.SingleUse.{verify_email_single_use}

abbrev raw_ann : Text
raw_ann = encode ann_claims

abbrev new_claims : Claims
new_claims = record {
  jti = 500 ∷ [];
  user_id = 1;
  actor_type = some (codes "customer");
  exp = (13 + refresh_token_lifetime) / 1000000;
}

rotate_single_use_example :
    (rotate_refresh_token services raw_ann
      (rotate_refresh_token services raw_ann (world signed_in)).1).0
    ≡ err (accounts invalid_refresh_token)
unfolding rotate_refresh_token decode eq_text unshifted shifted filter_rows exists_row update_rows
rotate_single_use_example =
    rotate_single_use services raw_ann (world signed_in) (encode new_claims, encode new_claims) refl

verify_email_single_use_example :
    (verify_email services
      (42 ∷ [])
      (verify_email services (42 ∷ []) (world (with_token email_verification))).1).0
    ≡ err (accounts invalid_verification_token)
unfolding verify_email find_token filter_rows eq_text
verify_email_single_use_example =
    verify_email_single_use services (42 ∷ []) (world (with_token email_verification))
      (verified 12 ann) refl

confirm_password_reset_single_use_example :
    (confirm_password_reset services
      (42 ∷ [])
      (8 ∷ [])
      (confirm_password_reset services (42 ∷ []) (7 ∷ []) (world (with_token password_reset))).1).0
    ≡ err (accounts invalid_verification_token)
unfolding confirm_password_reset find_token filter_rows eq_text exists_row
confirm_password_reset_single_use_example =
    confirm_password_reset_single_use services (42 ∷ []) (7 ∷ []) (8 ∷ [])
      (world (with_token password_reset)) ann refl

abbrev registered : World
registered = (register_customer services (97 ∷ []) (7 ∷ []) (world empty)).1

abbrev two_customers : Database
two_customers = record empty { customers = ann ∷ bob ∷ [] }

abbrev profile : Bool → GoogleProfile
profile b = record { subject_id = 7 ∷ []; email = 97 ∷ []; email_verified = b }

unverified_email_not_linked_example :
    ((login_with_google services (1 ∷ []) (world two_customers)).0
      ≡ err (accounts google_email_not_verified))
    × ((login_with_google services (1 ∷ []) (world two_customers)).1.db ≡ two_customers)
unfolding eq_text filter_rows verify_id_token claim lower strip
unverified_email_not_linked_example =
    unverified_email_not_linked services (1 ∷ []) (world two_customers) (profile false) ann refl
      refl refl refl

-- ann is disabled, and her Google account is linked
abbrev disabled_ann : Customer
disabled_ann = record ann { is_active = false }

abbrev linked : LoginMethod
linked = record {
  id = 8;
  customer = 1;
  provider = google;
  password_hash = [];
  provider_subject_id = 7 ∷ [];
}

abbrev disabled_linked : Database
disabled_linked = record empty { customers = disabled_ann ∷ []; login_methods = linked ∷ [] }

disabled_customer_signs_in_example :
    (tokens : Text × Text) × ((login_with_google services (2 ∷ []) (world disabled_linked)).0
      ≡ ok (disabled_ann, tokens.0, tokens.1))
    × ((login_with_google services (2 ∷ []) (world disabled_linked)).1.db.sessions
        ≡ issued_session services disabled_ann (world disabled_linked) ∷ [])
unfolding eq_text filter_rows exists_row verify_id_token claim lower strip
disabled_customer_signs_in_example =
    disabled_customer_signs_in services (2 ∷ []) (world disabled_linked) (profile true) linked
      disabled_ann refl refl refl refl refl

abbrev reason : Text
reason = codes "fraud"

disable_customer-ok_example :
    (c : Customer) × (customer_by_id 1 staffed ≡ c ∷ [])
    × (disabled_ann ≡ deactivate c)
    × (role_allows carol.role disable_customer_codename ≡ true)
    × (has_confirmed_mfa carol staffed ≡ true)
    × (strip reason ≢ [])
    × ((disable_customer carol 1 reason none (world staffed)).1.db
        ≡ record (disabled_db carol 1 reason none (world staffed) c) {
          audit_log = disable_entry carol 1 reason none (world staffed) c ∷ [];
        })
unfolding disable_customer check_policy has_permission in_texts eq_text has_confirmed_mfa exists_row
    strip filter_rows
disable_customer-ok_example =
    disable_customer-ok carol 1 reason none (world staffed) disabled_ann refl

disable_customer-get_user_example :
    get_user (some (codes "customer")) 1 (disable_customer carol 1 reason none (world staffed)).1.db
    ≡ none
unfolding disable_customer check_policy has_permission in_texts eq_text has_confirmed_mfa exists_row
    strip filter_rows
disable_customer-get_user_example =
    disable_customer-get_user carol 1 reason none (world staffed) disabled_ann refl

-- 256 letters
letters : ℕ → Text
letters zero = []
letters (suc n) = 97 ∷ letters n

disable_customer_unaudited_example :
    ((disable_customer carol 1 (letters 256) none (world staffed)).0 ≡ err (failure data_error))
    × ((disable_customer carol 1 (letters 256) none (world staffed)).1.db
        ≡ disabled_db carol 1 (letters 256) none (world staffed) ann)
unfolding check_policy has_permission in_texts eq_text has_confirmed_mfa exists_row filter_rows
disable_customer_unaudited_example =
    disable_customer_unaudited carol 1 (letters 256) none (world staffed) ann refl refl refl refl
      (unfold letters in unfold strip in omega arith)
