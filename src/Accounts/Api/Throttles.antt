-- ===== src/Accounts/Api/Throttles.antt =====
-- `throttle_classes` of the views in src/modules/accounts/api.
use be_py_eco.Prelude.{List, [], ◌∷◌}
use be_py_eco.Common.Throttling.{Throttle, ip_throttle, account_throttle, user_throttle}
use be_py_eco.Accounts.Api.Routes.{
  Endpoint, accounts_register, accounts_verify_email, accounts_login, accounts_login_google,
  accounts_password_reset_request, accounts_password_reset_confirm, admin_staff_login,
  admin_staff_mfa_confirm,
}

unfoldable pub throttle_classes : Endpoint → List Throttle
throttle_classes accounts_register = ip_throttle ∷ account_throttle ∷ []
throttle_classes accounts_verify_email = ip_throttle ∷ []
throttle_classes accounts_login = ip_throttle ∷ account_throttle ∷ []
throttle_classes accounts_login_google = ip_throttle ∷ []
throttle_classes accounts_password_reset_request = ip_throttle ∷ account_throttle ∷ []
throttle_classes accounts_password_reset_confirm = ip_throttle ∷ []
throttle_classes admin_staff_login = ip_throttle ∷ account_throttle ∷ []
throttle_classes admin_staff_mfa_confirm = ip_throttle ∷ user_throttle ∷ []
throttle_classes _ = []
