-- ===== src/Server/Documentation.antt =====
-- What the documentation of the API says of the responses: the serializers "for OpenAPI docs" of
-- the modules, and `extend_schema(responses=…)` of the views.
use be_py_eco.Prelude.{ℕ, codes}
use be_py_eco.Common.Openapi.{
  Kind, uuid, chars, boolean, integer, date_time, dictionary, nullable, object, many, Members, done,
  member,
}
use be_py_eco.Accounts.Api.Routes.{
  accounts_register, accounts_verify_email, accounts_login, accounts_login_google,
  accounts_token_refresh, accounts_me_locale, accounts_password_reset_request,
  accounts_password_reset_confirm, accounts_email_change_request, accounts_email_change_confirm,
  admin_staff_login, admin_staff_mfa_setup, admin_staff_mfa_confirm, accounts_me, accounts_sessions,
  accounts_session_revoke, accounts_sessions_revoke_all, admin_staff_create, admin_staff_mfa_reset,
  admin_customer_disable, Endpoint,
}
use be_py_eco.Server.Routes.{
  Route, accounts_endpoint, storefront_product_list, localization_suggestion,
  admin_media_request_upload, health_live, health_ready, storefront_product_detail,
  admin_category_detail, admin_product_publish,
}

-- `CustomerResponseSerializer`
abbrev pub customer_members : Members
customer_members = member (codes "id") uuid (
    member (codes "email") chars (
      member (codes "email_verified") boolean
        (member (codes "preferred_locale") chars (member (codes "preferred_currency") chars done))))

-- `TokenResponseSerializer`
abbrev pub token_members : Members
token_members = member (codes "access") chars (member (codes "refresh") chars done)

-- `SessionResponseSerializer`
abbrev pub session_members : Members
session_members =
    member (codes "id") uuid
      (member (codes "created_at") date_time (member (codes "expires_at") date_time done))

-- `StaffResponseSerializer`
abbrev pub staff_members : Members
staff_members =
    member (codes "id") uuid (member (codes "email") chars (member (codes "role") chars done))

-- `MfaSetupResponseSerializer`
abbrev pub mfa_setup_members : Members
mfa_setup_members = member (codes "provisioning_uri") chars done

-- `LocalizedFieldSerializer`
abbrev pub localized_field_members : Members
localized_field_members =
    member (codes "value") (nullable chars)
      (member (codes "locale") (nullable chars) (member (codes "is_fallback") boolean done))

-- `CategoryDetailSerializer`
abbrev pub category_detail_members : Members
category_detail_members = member (codes "id") uuid (
    member (codes "parent_id") (nullable uuid)
      (member (codes "name") (object localized_field_members) done))

-- `ProductDetailSerializer`
abbrev pub product_detail_members : Members
product_detail_members = member (codes "id") uuid (member (codes "status") chars done)

-- `ProductStorefrontSerializer`
abbrev pub product_storefront_members : Members
product_storefront_members = member (codes "id") uuid (
    member (codes "name") (nullable chars) (
      member (codes "is_name_fallback") boolean
        (member (codes "base_price_vnd") (nullable integer) done)))

-- `LocaleSuggestionResponseSerializer`
abbrev pub locale_suggestion_members : Members
locale_suggestion_members =
    member (codes "country_code") chars
      (member (codes "locale") chars (member (codes "currency") chars done))

-- `UploadCredentialSerializer`
abbrev pub upload_credential_members : Members
upload_credential_members =
    member (codes "media_upload_id") uuid
      (member (codes "upload_url") chars (member (codes "upload_fields") dictionary done))

-- a response under a status: with data, or with no body
pub data Documented : Type 0 where
  with_data : ℕ → Kind → Documented
  no_body : ℕ → Documented
  undocumented : Documented

-- `responses=` of the views of accounts; a bare serializer is documented under 200
abbrev pub documented_endpoint : Endpoint → Documented
documented_endpoint accounts_register = with_data 201 (object customer_members)
documented_endpoint accounts_verify_email = with_data 200 (object customer_members)
documented_endpoint accounts_login = with_data 200 (object token_members)
documented_endpoint accounts_login_google = with_data 200 (object token_members)
documented_endpoint accounts_token_refresh = with_data 200 (object token_members)
documented_endpoint accounts_me = with_data 200 (object customer_members)
documented_endpoint accounts_me_locale = with_data 200 (object customer_members)
documented_endpoint accounts_sessions = with_data 200 (many session_members)
documented_endpoint (accounts_session_revoke _) = no_body 204
documented_endpoint accounts_sessions_revoke_all = no_body 204
documented_endpoint accounts_password_reset_request = no_body 202
documented_endpoint accounts_password_reset_confirm = with_data 200 (object customer_members)
documented_endpoint accounts_email_change_request = no_body 202
documented_endpoint accounts_email_change_confirm = with_data 200 (object customer_members)
documented_endpoint admin_staff_login = with_data 200 (object token_members)
documented_endpoint admin_staff_create = with_data 201 (object staff_members)
documented_endpoint admin_staff_mfa_setup = with_data 200 (object mfa_setup_members)
documented_endpoint admin_staff_mfa_confirm = no_body 204
documented_endpoint (admin_staff_mfa_reset _) = no_body 204
documented_endpoint (admin_customer_disable _) = no_body 204

-- the health checks are no views of the framework, and no part of the documentation
abbrev pub documented : Route → Documented
documented (accounts_endpoint e) = documented_endpoint e
documented storefront_product_list = with_data 200 (many product_storefront_members)
documented (storefront_product_detail _) = with_data 200 (object product_storefront_members)
documented localization_suggestion = with_data 200 (object locale_suggestion_members)
documented (admin_category_detail _) = with_data 200 (object category_detail_members)
documented (admin_product_publish _) = with_data 200 (object product_detail_members)
documented admin_media_request_upload = with_data 200 (object upload_credential_members)
documented health_live = undocumented
documented health_ready = undocumented
