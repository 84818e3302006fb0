-- ===== src/Accounts/Intact/Views.antt =====
-- The authentication and the handlers of the views keep the customers' emails and ids apart.
use be_py_eco.Prelude.{ℕ, List, [], ◌∷◌, Text}
use be_py_eco.Schema.{Staff, Session}
use be_py_eco.World.{Services}
use be_py_eco.Common.Authentication.{Actor, customer_actor, staff_actor}
use be_py_eco.Common.Http.{
  Credentials, anonymous, bad_token, bearer, Framework, Request, authenticate, authenticated,
  is_staff,
}
use be_py_eco.Localization.{validate_locale_and_currency}
use be_py_eco.Accounts.Tokens.{generate_token}
use be_py_eco.Accounts.StaffActions.{create_staff_view, disable_customer_view, reset_staff_mfa_view}
use be_py_eco.Accounts.Api.Storefront.{
  active_sessions, me, session_list, session_revoke, session_revoke_all, save_preference,
  change_email,
}
use be_py_eco.Accounts.Api.Admin.{post_create_staff, post_disable_customer, post_reset_staff_mfa}
use be_py_eco.Accounts.Intact.{Safe}
use be_py_eco.Accounts.Intact.Elsewhere.{elsewhere_rules}
use be_py_eco.Accounts.Intact.Operations.{disable_customer-Safe, update_locale_preference-Safe}
use be_py_eco.Accounts.Intact.Others.{
  revoke_all_sessions-Safe, revoke_session-Safe, reset_staff_mfa-Safe, request_email_change-Safe,
  create_staff-Safe, sensitive_view-Safe,
}

pub authenticate-Safe : (c : Credentials) → Safe (authenticate c)
unfolding authenticate
authenticate-Safe anonymous = search elsewhere_rules
authenticate-Safe bad_token = search elsewhere_rules
authenticate-Safe (bearer t i) = search elsewhere_rules depth 20

pub authenticated-Safe : (request : Request) → Safe (authenticated request)
unfolding authenticated
authenticated-Safe request = search (elsewhere_rules, authenticate-Safe) depth 20

pub is_staff-Safe : (user : Actor) → Safe (is_staff user)
is_staff-Safe (customer_actor c) = search elsewhere_rules
is_staff-Safe (staff_actor s) = search elsewhere_rules

active_sessions-Safe : (rows : List Session) → Safe (active_sessions rows)
unfolding active_sessions
active_sessions-Safe [] = search elsewhere_rules
active_sessions-Safe (s ∷ rows) = search (elsewhere_rules, active_sessions-Safe rows) depth 20

pub session_list-Safe : (request : Request) (user : Actor) → Safe (session_list request user)
unfolding session_list
session_list-Safe request (customer_actor c) =
    search (elsewhere_rules, active_sessions-Safe) depth 20
session_list-Safe request (staff_actor s) = search elsewhere_rules

pub me-Safe : (request : Request) (user : Actor) → Safe (me request user)
unfolding me
me-Safe request (customer_actor c) = search elsewhere_rules
me-Safe request (staff_actor s) = search elsewhere_rules

pub session_revoke-Safe :
    (id : ℕ) (request : Request) (user : Actor) → Safe (session_revoke id request user)
unfolding session_revoke
session_revoke-Safe id request (customer_actor c) =
    search (elsewhere_rules, revoke_session-Safe) depth 20
session_revoke-Safe id request (staff_actor s) = search elsewhere_rules

pub session_revoke_all-Safe :
    (request : Request) (user : Actor) → Safe (session_revoke_all request user)
unfolding session_revoke_all
session_revoke_all-Safe request (customer_actor c) =
    search (elsewhere_rules, revoke_all_sessions-Safe) depth 20
session_revoke_all-Safe request (staff_actor s) = search elsewhere_rules

pub save_preference-Safe :
    (locale currency : Text) (user : Actor) → Safe (save_preference locale currency user)
unfolding save_preference validate_locale_and_currency
save_preference-Safe locale currency (customer_actor c) =
    update_locale_preference-Safe c locale currency
save_preference-Safe locale currency (staff_actor s) = search elsewhere_rules depth 20

module _ (sv : Services) (fw : Framework) where
  pub change_email-Safe : (email : Text) (user : Actor) → Safe (change_email sv fw email user)
  unfolding change_email generate_token
  change_email-Safe email (customer_actor c) = request_email_change-Safe sv c email
  change_email-Safe email (staff_actor s) = search elsewhere_rules depth 30

  pub create_staff_view-Safe :
      (request : Request) (s : Staff) → Safe (post_create_staff sv fw request s)
  unfolding create_staff_view
  create_staff_view-Safe request s =
      sensitive_view-Safe sv _ (search (elsewhere_rules, create_staff-Safe) depth 20) _ s request

  pub disable_customer_view-Safe :
      (id : ℕ) (request : Request) (s : Staff) → Safe (post_disable_customer sv fw id request s)
  unfolding disable_customer_view
  disable_customer_view-Safe id request s =
      sensitive_view-Safe sv _ (search (elsewhere_rules, disable_customer-Safe) depth 20) _ s
        request

  pub reset_staff_mfa_view-Safe :
      (id : ℕ) (request : Request) (s : Staff) → Safe (post_reset_staff_mfa sv fw id request s)
  unfolding reset_staff_mfa_view
  reset_staff_mfa_view-Safe id request s =
      sensitive_view-Safe sv _ (search (elsewhere_rules, reset_staff_mfa-Safe) depth 20) _ s request
