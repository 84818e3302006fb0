-- ===== src/Accounts/Api/Routes.antt =====
-- src/modules/accounts/api/storefront/urls.py and api/admin/urls.py: the routes, by their names,
-- and how the framework runs a view: authentication, then permissions, then the handler.
use be_py_eco.Prelude.{ℕ, List, [], ◌∷◌}
use be_py_eco.Schema.{Staff}
use be_py_eco.World.{World, Action, Services, ◌>>=◌}
use be_py_eco.Common.Authentication.{Actor}
use be_py_eco.Common.Idempotency.{Response}
use be_py_eco.Common.Http.{Framework, Request, authenticated, staff_only}
use be_py_eco.Accounts.Api.Storefront.{
  me, session_list, session_revoke, session_revoke_all, update_locale_view, request_change_view,
  register_view, verify_email_view, login_view, google_login_view, refresh_view, request_reset_view,
  confirm_reset_view, confirm_change_view,
}
use be_py_eco.Accounts.Api.Admin.{
  staff_login_view, mfa_setup_view, mfa_confirm_view, post_create_staff, post_disable_customer,
  post_reset_staff_mfa,
}

pub data Endpoint : Type 0 where
  accounts_register accounts_verify_email accounts_login accounts_login_google
        accounts_token_refresh accounts_me accounts_me_locale accounts_sessions
        accounts_sessions_revoke_all accounts_password_reset_request accounts_password_reset_confirm
        accounts_email_change_request accounts_email_change_confirm admin_staff_login
        admin_staff_create admin_staff_mfa_setup admin_staff_mfa_confirm :
      Endpoint
  accounts_session_revoke admin_staff_mfa_reset admin_customer_disable : ℕ → Endpoint

-- A view by its `permission_classes`: `AllowAny` without authentication, `IsAuthenticated`, or
-- `IsAuthenticated` and `IsStaff`.
pub data View : Type 0 where
  open_view : (Request → Action Response) → View
  user_view : (Request → Actor → Action Response) → View
  staff_view : (Request → Staff → Action Response) → View

-- `APIView.dispatch`
unfoldable pub dispatch : View → Request → Action Response
unfolding authenticated staff_only
dispatch (open_view post) request = post request
dispatch (user_view post) request = do user ← authenticated request; post request user
dispatch (staff_view post) request = do staff ← staff_only request; post request staff

module _ (sv : Services) (fw : Framework) where
  unfoldable pub view_of : Endpoint → View
  view_of accounts_register = open_view (register_view sv fw)
  view_of accounts_verify_email = open_view (verify_email_view sv fw)
  view_of accounts_login = open_view (login_view sv fw)
  view_of accounts_login_google = open_view (google_login_view sv fw)
  view_of accounts_token_refresh = open_view (refresh_view sv fw)
  view_of accounts_me = user_view me
  view_of accounts_me_locale = user_view (update_locale_view sv fw)
  view_of accounts_sessions = user_view session_list
  view_of (accounts_session_revoke session_id) = user_view (session_revoke session_id)
  view_of accounts_sessions_revoke_all = user_view session_revoke_all
  view_of accounts_password_reset_request = open_view (request_reset_view sv fw)
  view_of accounts_password_reset_confirm = open_view (confirm_reset_view sv fw)
  view_of accounts_email_change_request = user_view (request_change_view sv fw)
  view_of accounts_email_change_confirm = open_view (confirm_change_view sv fw)
  view_of admin_staff_login = open_view (staff_login_view sv fw)
  view_of admin_staff_create = staff_view (post_create_staff sv fw)
  view_of admin_staff_mfa_setup = staff_view (mfa_setup_view sv fw)
  view_of admin_staff_mfa_confirm = staff_view (mfa_confirm_view sv fw)
  view_of (admin_staff_mfa_reset staff_id) = staff_view (post_reset_staff_mfa sv fw staff_id)
  view_of (admin_customer_disable customer_id) =
      staff_view (post_disable_customer sv fw customer_id)

  -- the answer to a request at an endpoint
  unfoldable pub handle : Endpoint → Request → Action Response
  unfolding dispatch view_of
  handle endpoint request = dispatch (view_of endpoint) request

  -- the world after a history of requests, the latest first
  unfoldable pub serve : List (Endpoint × Request) → World → World
  unfolding handle
  serve [] w = w
  serve ((endpoint, request) ∷ earlier) w = (handle endpoint request (serve earlier w)).1
