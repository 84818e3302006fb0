-- ===== src/Server/Routes.antt =====
-- src/config/urls.py and the urls.py of each module: every route of the server but the two that
-- serve the API's documentation, with its path.
use be_py_eco.Prelude.{ℕ, ◌++◌, Text, codes}
use be_py_eco.Common.Render.{uuid_text}
use be_py_eco.Accounts.Api.Routes.{
  Endpoint, accounts_register, accounts_verify_email, accounts_login, accounts_login_google,
  accounts_token_refresh, accounts_me, accounts_me_locale, accounts_sessions,
  accounts_sessions_revoke_all, accounts_password_reset_request, accounts_password_reset_confirm,
  accounts_email_change_request, accounts_email_change_confirm, admin_staff_login,
  admin_staff_create, admin_staff_mfa_setup, admin_staff_mfa_confirm, accounts_session_revoke,
  admin_staff_mfa_reset, admin_customer_disable,
}

pub data Route : Type 0 where
  accounts_endpoint : Endpoint → Route
  storefront_product_list localization_suggestion admin_media_request_upload health_live
        health_ready :
      Route
  storefront_product_detail admin_category_detail admin_product_publish : ℕ → Route

abbrev storefront_accounts : Text → Text
storefront_accounts rest = codes "/api/v1/storefront/accounts/" ++ rest

abbrev storefront_catalog : Text → Text
storefront_catalog rest = codes "/api/v1/storefront/catalog/" ++ rest

abbrev admin_accounts : Text → Text
admin_accounts rest = codes "/api/v1/admin/" ++ rest

abbrev admin_catalog : Text → Text
admin_catalog rest = codes "/api/v1/admin/catalog/" ++ rest

unfoldable pub endpoint_path : Endpoint → Text
endpoint_path accounts_register = storefront_accounts (codes "register")
endpoint_path accounts_verify_email = storefront_accounts (codes "verify-email")
endpoint_path accounts_login = storefront_accounts (codes "login")
endpoint_path accounts_login_google = storefront_accounts (codes "login/google")
endpoint_path accounts_token_refresh = storefront_accounts (codes "token/refresh")
endpoint_path accounts_me = storefront_accounts (codes "me")
endpoint_path accounts_me_locale = storefront_accounts (codes "me/locale")
endpoint_path accounts_sessions = storefront_accounts (codes "sessions")
endpoint_path (accounts_session_revoke session_id) =
    storefront_accounts (codes "sessions/" ++ (uuid_text session_id ++ codes "/revoke"))
endpoint_path accounts_sessions_revoke_all = storefront_accounts (codes "sessions/revoke-all")
endpoint_path accounts_password_reset_request = storefront_accounts (codes "password-reset/request")
endpoint_path accounts_password_reset_confirm = storefront_accounts (codes "password-reset/confirm")
endpoint_path accounts_email_change_request = storefront_accounts (codes "email-change/request")
endpoint_path accounts_email_change_confirm = storefront_accounts (codes "email-change/confirm")
endpoint_path admin_staff_login = admin_accounts (codes "staff/login")
endpoint_path admin_staff_create = admin_accounts (codes "staff")
endpoint_path admin_staff_mfa_setup = admin_accounts (codes "staff/mfa/setup")
endpoint_path admin_staff_mfa_confirm = admin_accounts (codes "staff/mfa/confirm")
endpoint_path (admin_staff_mfa_reset staff_id) =
    admin_accounts (codes "staff/" ++ (uuid_text staff_id ++ codes "/mfa/reset"))
endpoint_path (admin_customer_disable customer_id) =
    admin_accounts (codes "customers/" ++ (uuid_text customer_id ++ codes "/disable"))

unfoldable pub path_of : Route → Text
unfolding endpoint_path
path_of (accounts_endpoint e) = endpoint_path e
path_of storefront_product_list = storefront_catalog (codes "products")
path_of (storefront_product_detail product_id) =
    storefront_catalog (codes "products/" ++ uuid_text product_id)
path_of localization_suggestion = codes "/api/v1/storefront/localization/suggestion"
path_of (admin_category_detail category_id) =
    admin_catalog (codes "categories/" ++ uuid_text category_id)
path_of (admin_product_publish product_id) =
    admin_catalog (codes "products/" ++ (uuid_text product_id ++ codes "/publish"))
path_of admin_media_request_upload = codes "/api/v1/admin/media/uploads"
path_of health_live = codes "/health/live"
path_of health_ready = codes "/health/ready"
