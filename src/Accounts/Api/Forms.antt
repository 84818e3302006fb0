-- ===== src/Accounts/Api/Forms.antt =====
-- src/modules/accounts/api/storefront/serializers.py and api/admin/serializers.py: what
-- `serializer.validated_data` is for a body, or `none` where `is_valid` raises.
use be_py_eco.Prelude.{
  Bool, true, false, Option, none, some, List, [], ◌∷◌, if◌then◌else◌, Text, codes, eq_text,
  exists_row,
}
use be_py_eco.Schema.{Database, Customer, Json}
use be_py_eco.Common.Http.{Framework, required, both, only_if}
use be_py_eco.Common.Permissions.{master_admin, store_manager, order_staff}
use be_py_eco.Accounts.Tokens.{normalize_email}
use be_py_eco.Accounts.StaffActions.{NewStaff}

abbrev has_email : Text → Customer → Bool
has_email email c = eq_text c.email email

-- `RegisterSerializer.validate_email`: the normalised email, unless a customer has it
unfoldable pub validate_email : Database → Text → Option Text
validate_email db email =
    if exists_row (has_email (normalize_email email)) db.customers
    then none
    else some (normalize_email email)

abbrev validate_found : Database → Option Text → Option Text
validate_found db none = none
validate_found db (some email) = validate_email db email

-- `Staff.Role.choices`
abbrev pub roles : List Text
roles = master_admin ∷ store_manager ∷ order_staff ∷ []

abbrev new_staff : Option (Text × (Text × Text)) → Option NewStaff
new_staff none = none
new_staff (some (email, (password, role))) =
    some (record { email = email; password = password; role = role })

module _ (fw : Framework) where
  open fw use {char_field, email_field, choice_field, password_is_valid}

  -- a password that `validate_password` accepts
  unfoldable pub valid_password : Json → Option Text
  valid_password j = only_if password_is_valid (char_field false j)

  -- a serializer with one `CharField`
  unfoldable pub text_form : Text → Json → Option Text
  unfolding required
  text_form name body = required name (char_field true) body

  -- `VerifyEmailSerializer`
  abbrev pub verify_email_form : Json → Option Text
  verify_email_form = text_form (codes "token")

  -- `RefreshTokenSerializer`
  abbrev pub refresh_token_form : Json → Option Text
  refresh_token_form = text_form (codes "refresh")

  -- `GoogleLoginSerializer`
  abbrev pub google_login_form : Json → Option Text
  google_login_form = text_form (codes "id_token")

  -- `ConfirmEmailChangeSerializer`
  abbrev pub confirm_change_form : Json → Option Text
  confirm_change_form = text_form (codes "token")

  -- `ConfirmMfaSerializer`
  abbrev pub confirm_mfa_form : Json → Option Text
  confirm_mfa_form = text_form (codes "token")

  -- `DisableCustomerSerializer`
  abbrev pub disable_customer_form : Json → Option Text
  disable_customer_form = text_form (codes "reason")

  -- `LoginSerializer`
  unfoldable pub login_form : Json → Option (Text × Text)
  unfolding required
  login_form body =
      both (required (codes "email") email_field body)
        (required (codes "password") (char_field false) body)

  -- `StaffLoginSerializer`
  abbrev pub staff_login_form : Json → Option (Text × Text)
  staff_login_form = login_form

  unfoldable pub register_form : Database → Json → Option (Text × Text)
  unfolding required valid_password validate_email
  register_form db body =
      both (validate_found db (required (codes "email") email_field body))
        (required (codes "password") valid_password body)

  -- `RequestPasswordResetSerializer`
  unfoldable pub request_reset_form : Json → Option Text
  unfolding required
  request_reset_form body = required (codes "email") email_field body

  -- `ConfirmPasswordResetSerializer`
  unfoldable pub confirm_reset_form : Json → Option (Text × Text)
  unfolding required valid_password
  confirm_reset_form body =
      both (required (codes "token") (char_field true) body)
        (required (codes "new_password") valid_password body)

  -- `RequestEmailChangeSerializer`
  unfoldable pub email_change_form : Json → Option Text
  unfolding required
  email_change_form body = required (codes "new_email") email_field body

  -- `UpdateLocalePreferenceSerializer`
  unfoldable pub locale_form : Json → Option (Text × Text)
  unfolding required
  locale_form body =
      both (required (codes "locale") (char_field true) body)
        (required (codes "currency") (char_field true) body)

  unfoldable pub create_staff_form : Json → Option NewStaff
  unfolding required valid_password
  create_staff_form body = new_staff (
      both (required (codes "email") email_field body) (
        both (required (codes "password") valid_password body)
          (required (codes "role") (choice_field roles) body)))
