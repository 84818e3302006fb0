-- ===== src/Server/Access.antt =====
-- Whom the server lets in.
use be_py_eco.Prelude.{ℕ, ◌≡◌, refl, Bool, true, false, ◌||◌, Option, none, some, arith, Text}
use be_py_eco.Errors.{Error, permission_refused, status_code}
use be_py_eco.Schema.{Customer}
use be_py_eco.World.{World, Action, ok, err, Services}
use be_py_eco.Common.RequestContext.{RequestMeta}
use be_py_eco.Common.Authentication.{Actor, customer_actor}
use be_py_eco.Common.Http.{Framework, Request, staff_only}
use be_py_eco.Common.Http.Guards.{
  actor_of, refusal, refusal_status, authenticated-none, authenticated-some,
}
use be_py_eco.Catalog.Api.{category_detail_get, product_publish_post}
use be_py_eco.Media.Upload.{ObjectStorage}
use be_py_eco.Media.Api.{request_upload_view}
use be_py_eco.Accounts.Api.Routes.{
  accounts_me, accounts_me_locale, accounts_sessions, accounts_session_revoke,
  accounts_sessions_revoke_all, accounts_email_change_request, admin_staff_create,
  admin_staff_mfa_setup, admin_staff_mfa_confirm, admin_staff_mfa_reset, admin_customer_disable,
  Endpoint, View, open_view, user_view, staff_view, view_of,
}
use be_py_eco.Accounts.Api.Access.{
  is_open, is_for_staff, dispatch_unauthenticated, dispatch_customer,
}
use be_py_eco.Server.Routes.{
  Route, accounts_endpoint, admin_category_detail, admin_product_publish,
  admin_media_request_upload,
}
use be_py_eco.Server.Views.{
  Incoming, Reply, guarded, run_endpoint, run_view, request_with, throttle_check,
}
use be_py_eco.Server.Answers.{FrameworkErrors, error_reply, answer}
use be_py_eco.Server.Problems.{answer-raised, error_reply-status}

-- The endpoints of accounts that are for whoever is signed in, and those for staff, by what they
-- are for. They are listed here apart from the views.
abbrev pub user_endpoint : Endpoint → Bool
user_endpoint accounts_me = true
user_endpoint accounts_me_locale = true
user_endpoint accounts_sessions = true
user_endpoint (accounts_session_revoke _) = true
user_endpoint accounts_sessions_revoke_all = true
user_endpoint accounts_email_change_request = true
user_endpoint _ = false

abbrev pub staff_endpoint : Endpoint → Bool
staff_endpoint admin_staff_create = true
staff_endpoint admin_staff_mfa_setup = true
staff_endpoint admin_staff_mfa_confirm = true
staff_endpoint (admin_staff_mfa_reset _) = true
staff_endpoint (admin_customer_disable _) = true
staff_endpoint _ = false

-- the administration, but the sign-in of staff
abbrev pub staff_route : Route → Bool
staff_route (accounts_endpoint e) = staff_endpoint e
staff_route (admin_category_detail _) = true
staff_route (admin_product_publish _) = true
staff_route admin_media_request_upload = true
staff_route _ = false

-- the administration, and what a customer has
abbrev pub closed_route : Route → Bool
closed_route (accounts_endpoint e) = user_endpoint e || staff_endpoint e
closed_route route = staff_route route

module _ (sv : Services) (fw : Framework) where
  view_of-closed :
      (e : Endpoint)
      → user_endpoint e || staff_endpoint e ≡ true
      → is_open (view_of sv fw e) ≡ false
  unfolding view_of
  view_of-closed accounts_me c = refl
  view_of-closed accounts_me_locale c = refl
  view_of-closed accounts_sessions c = refl
  view_of-closed (accounts_session_revoke _) c = refl
  view_of-closed accounts_sessions_revoke_all c = refl
  view_of-closed accounts_email_change_request c = refl
  view_of-closed admin_staff_create c = refl
  view_of-closed admin_staff_mfa_setup c = refl
  view_of-closed admin_staff_mfa_confirm c = refl
  view_of-closed (admin_staff_mfa_reset _) c = refl
  view_of-closed (admin_customer_disable _) c = refl
  view_of-closed _ c = absurd (ground arith)

  view_of-staff : (e : Endpoint) → staff_endpoint e ≡ true → is_for_staff (view_of sv fw e) ≡ true
  unfolding view_of
  view_of-staff admin_staff_create c = refl
  view_of-staff admin_staff_mfa_setup c = refl
  view_of-staff admin_staff_mfa_confirm c = refl
  view_of-staff (admin_staff_mfa_reset _) c = refl
  view_of-staff (admin_customer_disable _) c = refl
  view_of-staff _ c = absurd (ground arith)

guarded-is_open :
    (check : Request → Option Actor → Action (Unit {0})) (v : View)
    → is_open (guarded check v) ≡ is_open v
unfolding guarded
guarded-is_open check (open_view post) = refl
guarded-is_open check (user_view post) = refl
guarded-is_open check (staff_view post) = refl

guarded-is_for_staff :
    (check : Request → Option Actor → Action (Unit {0})) (v : View)
    → is_for_staff (guarded check v) ≡ is_for_staff v
unfolding guarded
guarded-is_for_staff check (open_view post) = refl
guarded-is_for_staff check (user_view post) = refl
guarded-is_for_staff check (staff_view post) = refl

module _ (sv : Services) (fw : Framework) (get_ident : RequestMeta → Text) (os : ObjectStorage)
    (incoming : Incoming) (meta : RequestMeta) (w : World) where
  run_view_unauthenticated :
      (route : Route)
      → closed_route route ≡ true
      → actor_of incoming.credentials w.db ≡ none
      → run_view sv fw get_ident os route incoming meta w ≡ (err (refusal incoming.credentials), w)
  unfolding run_view run_endpoint category_detail_get product_publish_post request_upload_view
      staff_only
  run_view_unauthenticated (accounts_endpoint e) c h =
      rw
        (dispatch_unauthenticated
          (guarded (throttle_check sv fw get_ident incoming e) (view_of sv fw e))
          (request_with incoming meta) w
          (ground (
            arith,
            guarded-is_open (throttle_check sv fw get_ident incoming e) (view_of sv fw e),
            view_of-closed sv fw e,
          ))
          h)
        refl
  run_view_unauthenticated (admin_category_detail id) c h =
      rw (authenticated-none (request_with incoming meta) w h) refl
  run_view_unauthenticated (admin_product_publish id) c h =
      rw (authenticated-none (request_with incoming meta) w h) refl
  run_view_unauthenticated admin_media_request_upload c h =
      rw (authenticated-none (request_with incoming meta) w h) refl
  run_view_unauthenticated _ c h = absurd (ground arith)

  run_view_customer :
      (route : Route) (customer : Customer)
      → staff_route route ≡ true
      → actor_of incoming.credentials w.db ≡ some (customer_actor customer)
      → run_view sv fw get_ident os route incoming meta w ≡ (err permission_refused, w)
  unfolding run_view run_endpoint category_detail_get product_publish_post request_upload_view
      staff_only
  run_view_customer (accounts_endpoint e) customer c h =
      rw
        (dispatch_customer (guarded (throttle_check sv fw get_ident incoming e) (view_of sv fw e))
          (request_with incoming meta) w customer
          (ground (
            arith,
            guarded-is_for_staff (throttle_check sv fw get_ident incoming e) (view_of sv fw e),
            view_of-staff sv fw e,
          ))
          h)
        refl
  run_view_customer (admin_category_detail id) customer c h =
      rw (authenticated-some (request_with incoming meta) w (customer_actor customer) h) refl
  run_view_customer (admin_product_publish id) customer c h =
      rw (authenticated-some (request_with incoming meta) w (customer_actor customer) h) refl
  run_view_customer admin_media_request_upload customer c h =
      rw (authenticated-some (request_with incoming meta) w (customer_actor customer) h) refl
  run_view_customer _ customer c h = absurd (ground arith)

  module _ (fe : FrameworkErrors) where
    answered :
        (e : Error) (status : ℕ)
        → run_view sv fw get_ident os incoming.route incoming meta w ≡ (err e, w)
        → status_code e ≡ some status
        → (reply : Reply) × (answer sv fw fe os get_ident incoming meta w ≡ (ok reply, w))
          × (reply.status ≡ status)
    answered e status h s = (
      error_reply fe incoming.route incoming.body meta e,
      ground (arith, answer-raised sv fw fe os get_ident incoming meta w e),
      ground (arith, error_reply-status fe incoming.route incoming.body meta e),
    )

    -- Every route of the administration but the sign-in of staff, and every route of accounts for
    -- the profile, the sessions and a change of email, answers credentials that stand for nobody
    -- with 401, and leaves the world as it is.
    pub answer-unauthenticated :
        closed_route incoming.route ≡ true
        → actor_of incoming.credentials w.db ≡ none
        → (reply : Reply) × (answer sv fw fe os get_ident incoming meta w ≡ (ok reply, w))
          × (reply.status ≡ 401)
    answer-unauthenticated c h =
        answered (refusal incoming.credentials) 401 (run_view_unauthenticated incoming.route c h)
          (refusal_status incoming.credentials)

    -- Every route of the administration but the sign-in of staff answers a customer with 403, and
    -- leaves the world as it is.
    pub answer-customer_refused :
        (customer : Customer)
        → staff_route incoming.route ≡ true
        → actor_of incoming.credentials w.db ≡ some (customer_actor customer)
        → (reply : Reply) × (answer sv fw fe os get_ident incoming meta w ≡ (ok reply, w))
          × (reply.status ≡ 403)
    unfolding status_code
    answer-customer_refused customer c h =
        answered permission_refused 403 (run_view_customer incoming.route customer c h) refl
