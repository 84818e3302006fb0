-- ===== src/Server/Endpoints.antt =====
-- What the views of accounts answer, against the documentation.
use be_py_eco.Prelude.{ℕ, ◌≡◌, Bool, true, false, arith}
use be_py_eco.Server.Documentation.{documented_endpoint}
use be_py_eco.World.{Yields, Services}
use be_py_eco.Common.Authentication.{Actor, customer_actor, staff_actor}
use be_py_eco.Common.Http.{Framework, Request}
use be_py_eco.Accounts.Api.Storefront.{
  me, session_list, session_revoke, session_revoke_all, update_locale_view, request_change_view,
  register_view, verify_email_view, login_view, google_login_view, refresh_view, request_reset_view,
  confirm_reset_view, confirm_change_view,
}
use be_py_eco.Accounts.Api.Admin.{staff_login_view, mfa_setup_view, mfa_confirm_view}
use be_py_eco.Accounts.Api.Routes.{
  accounts_register, accounts_verify_email, accounts_login, accounts_login_google,
  accounts_token_refresh, accounts_me_locale, accounts_password_reset_request,
  accounts_password_reset_confirm, accounts_email_change_request, accounts_email_change_confirm,
  admin_staff_login, admin_staff_mfa_setup, admin_staff_mfa_confirm, accounts_me, accounts_sessions,
  accounts_session_revoke, accounts_sessions_revoke_all, admin_staff_create, admin_staff_mfa_reset,
  admin_customer_disable, Endpoint, view_of,
}
use be_py_eco.Server.Meets.{MeetsFor, shape_rules, ViewMeets}

me-Meets :
    (request : Request) (user : Actor)
    → Yields (MeetsFor (documented_endpoint accounts_me) request) (me request user)
unfolding me
me-Meets request (customer_actor c) = search shape_rules
me-Meets request (staff_actor s) = search shape_rules

session_list-Meets :
    (request : Request) (user : Actor)
    → Yields (MeetsFor (documented_endpoint accounts_sessions) request) (session_list request user)
unfolding session_list
session_list-Meets request (customer_actor c) = search shape_rules depth 20
session_list-Meets request (staff_actor s) = search shape_rules

session_revoke-Meets :
    (id : ℕ) (request : Request) (user : Actor)
    → Yields
        (MeetsFor (documented_endpoint (accounts_session_revoke id)) request)
        (session_revoke id request user)
unfolding session_revoke
session_revoke-Meets id request (customer_actor c) = search shape_rules
session_revoke-Meets id request (staff_actor s) = search shape_rules

session_revoke_all-Meets :
    (request : Request) (user : Actor)
    → Yields
        (MeetsFor (documented_endpoint accounts_sessions_revoke_all) request)
        (session_revoke_all request user)
unfolding session_revoke_all
session_revoke_all-Meets request (customer_actor c) = search shape_rules
session_revoke_all-Meets request (staff_actor s) = search shape_rules

-- a sensitive view may replay the answer to an earlier request
abbrev pub is_sensitive : Endpoint → Bool
is_sensitive admin_staff_create = true
is_sensitive (admin_staff_mfa_reset _) = true
is_sensitive (admin_customer_disable _) = true
is_sensitive _ = false

module _ (sv : Services) (fw : Framework) where
  pub view_of-Meets :
      (e : Endpoint) → is_sensitive e ≡ false → ViewMeets (documented_endpoint e) (view_of sv fw e)
  unfolding view_of update_locale_view request_change_view register_view verify_email_view
      login_view google_login_view refresh_view request_reset_view confirm_reset_view
      confirm_change_view staff_login_view mfa_setup_view mfa_confirm_view
  view_of-Meets accounts_register s = search shape_rules depth 20
  view_of-Meets accounts_verify_email s = search shape_rules depth 20
  view_of-Meets accounts_login s = search shape_rules depth 20
  view_of-Meets accounts_login_google s = search shape_rules depth 20
  view_of-Meets accounts_token_refresh s = search shape_rules depth 20
  view_of-Meets accounts_me_locale s = search shape_rules depth 20
  view_of-Meets accounts_password_reset_request s = search shape_rules depth 20
  view_of-Meets accounts_password_reset_confirm s = search shape_rules depth 20
  view_of-Meets accounts_email_change_request s = search shape_rules depth 20
  view_of-Meets accounts_email_change_confirm s = search shape_rules depth 20
  view_of-Meets admin_staff_login s = search shape_rules depth 20
  view_of-Meets admin_staff_mfa_setup s = search shape_rules depth 20
  view_of-Meets admin_staff_mfa_confirm s = search shape_rules depth 20
  view_of-Meets accounts_me s = me-Meets
  view_of-Meets accounts_sessions s = session_list-Meets
  view_of-Meets (accounts_session_revoke id) s = session_revoke-Meets id
  view_of-Meets accounts_sessions_revoke_all s = session_revoke_all-Meets
  view_of-Meets _ s = absurd (ground arith)
