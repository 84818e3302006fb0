-- ===== src/Accounts/Intact/Endpoints.antt =====
-- The endpoints of accounts keep the database intact.
use be_py_eco.Schema.{Staff}
use be_py_eco.World.{Services}
use be_py_eco.Common.Authentication.{Actor}
use be_py_eco.Common.Http.{Framework, Request, staff_only}
use be_py_eco.Accounts.Api.Storefront.{
  update_locale_view, request_change_view, register_view, verify_email_view, login_view,
  google_login_view, refresh_view, request_reset_view, confirm_reset_view, confirm_change_view,
}
use be_py_eco.Accounts.Api.Admin.{staff_login_view, mfa_setup_view, mfa_confirm_view}
use be_py_eco.Accounts.Api.Routes.{
  accounts_register, accounts_verify_email, accounts_login, accounts_login_google,
  accounts_token_refresh, accounts_me_locale, accounts_password_reset_request,
  accounts_password_reset_confirm, accounts_email_change_request, accounts_email_change_confirm,
  admin_staff_login, admin_staff_mfa_setup, admin_staff_mfa_confirm, accounts_me, accounts_sessions,
  accounts_session_revoke, accounts_sessions_revoke_all, admin_staff_create, admin_staff_mfa_reset,
  admin_customer_disable, View, open_view, user_view, staff_view, Endpoint, dispatch, view_of,
}
use be_py_eco.Accounts.Intact.{Safe}
use be_py_eco.Accounts.Intact.Elsewhere.{elsewhere_rules}
use be_py_eco.Accounts.Intact.Views.{
  authenticated-Safe, is_staff-Safe, session_list-Safe, me-Safe, session_revoke-Safe,
  session_revoke_all-Safe, save_preference-Safe, change_email-Safe, create_staff_view-Safe,
  disable_customer_view-Safe, reset_staff_mfa_view-Safe,
}
use be_py_eco.Accounts.Intact.Operations.{
  register_customer-Safe, verify_email-Safe, confirm_email_change-Safe, login_with_google-Safe,
}
use be_py_eco.Accounts.Intact.Others.{
  start_mfa_setup-Safe, login_customer-Safe, login_staff-Safe, rotate_refresh_token-Safe,
  request_password_reset-Safe, confirm_password_reset-Safe, confirm_mfa_setup-Safe,
}

-- every handler of the view is safe
abbrev pub ViewSafe : View → Type 0
ViewSafe (open_view post) = (request : Request) → Safe (post request)
ViewSafe (user_view post) = (request : Request) (user : Actor) → Safe (post request user)
ViewSafe (staff_view post) = (request : Request) (s : Staff) → Safe (post request s)

pub dispatch-Safe : (v : View) (request : Request) → ViewSafe v → Safe (dispatch v request)
unfolding dispatch staff_only
dispatch-Safe (open_view post) request k = k request
dispatch-Safe (user_view post) request k =
    search (elsewhere_rules, authenticated-Safe, k request) depth 20
dispatch-Safe (staff_view post) request k =
    search (elsewhere_rules, authenticated-Safe, is_staff-Safe, k request) depth 20

ruleset view_rules = (
  elsewhere_rules, save_preference-Safe, change_email-Safe, register_customer-Safe,
  verify_email-Safe, confirm_email_change-Safe, login_with_google-Safe, start_mfa_setup-Safe,
  login_customer-Safe, login_staff-Safe, rotate_refresh_token-Safe, request_password_reset-Safe,
  confirm_password_reset-Safe, confirm_mfa_setup-Safe,
)

module _ (sv : Services) (fw : Framework) where
  pub view_of-Safe : (e : Endpoint) → ViewSafe (view_of sv fw e)
  unfolding view_of update_locale_view request_change_view register_view verify_email_view
      login_view google_login_view refresh_view request_reset_view confirm_reset_view
      confirm_change_view staff_login_view mfa_setup_view mfa_confirm_view
  view_of-Safe accounts_register = search view_rules depth 20
  view_of-Safe accounts_verify_email = search view_rules depth 20
  view_of-Safe accounts_login = search view_rules depth 20
  view_of-Safe accounts_login_google = search view_rules depth 20
  view_of-Safe accounts_token_refresh = search view_rules depth 20
  view_of-Safe accounts_me_locale = search view_rules depth 20
  view_of-Safe accounts_password_reset_request = search view_rules depth 20
  view_of-Safe accounts_password_reset_confirm = search view_rules depth 20
  view_of-Safe accounts_email_change_request = search view_rules depth 20
  view_of-Safe accounts_email_change_confirm = search view_rules depth 20
  view_of-Safe admin_staff_login = search view_rules depth 20
  view_of-Safe admin_staff_mfa_setup = search view_rules depth 20
  view_of-Safe admin_staff_mfa_confirm = search view_rules depth 20
  view_of-Safe accounts_me = me-Safe
  view_of-Safe accounts_sessions = session_list-Safe
  view_of-Safe (accounts_session_revoke id) = session_revoke-Safe id
  view_of-Safe accounts_sessions_revoke_all = session_revoke_all-Safe
  view_of-Safe admin_staff_create = create_staff_view-Safe sv fw
  view_of-Safe (admin_staff_mfa_reset id) = reset_staff_mfa_view-Safe sv fw id
  view_of-Safe (admin_customer_disable id) = disable_customer_view-Safe sv fw id
