-- ===== src/Server/Views.antt =====
-- How the server runs the view of a route: authentication, permissions, throttles, the handler.
use be_py_eco.Prelude.{ℕ, Bool, Option, none, some, List, [], ◌∷◌, Text, codes}
use be_py_eco.Schema.{Json}
use be_py_eco.World.{Action, pure, Services, ◌>>=◌, ◌>>◌}
use be_py_eco.Common.Health.{live, ready}
use be_py_eco.Common.Idempotency.{Response}
use be_py_eco.Common.RequestContext.{RequestMeta}
use be_py_eco.Common.Authentication.{Actor}
use be_py_eco.Common.Http.{Credentials, Request, Framework}
use be_py_eco.Common.Throttling.{throttle_keys, check_throttles}
use be_py_eco.Accounts.Api.Routes.{
  Endpoint, View, open_view, user_view, staff_view, dispatch, view_of,
}
use be_py_eco.Accounts.Api.Throttles.{throttle_classes}
use be_py_eco.Catalog.Api.{
  product_list_get, product_detail_get, category_detail_get, product_publish_post,
}
use be_py_eco.Localization.Api.{locale_suggestion_view}
use be_py_eco.Media.Upload.{ObjectStorage}
use be_py_eco.Media.Api.{request_upload_view}
use be_py_eco.Server.Routes.{
  Route, accounts_endpoint, storefront_product_list, localization_suggestion,
  admin_media_request_upload, health_live, health_ready, storefront_product_detail,
  admin_category_detail, admin_product_publish,
}

-- What a client sends to a route, and what the framework's state and the connection decide: the
-- throttles' verdict on the keys that a request counts for, and whether the database is reached.
pub record Incoming : Type 0 where
  pub route : Route
  pub x_request_id : Option Text
  pub remote_addr : Option Text
  pub x_forwarded_for : Option Text
  pub credentials : Credentials
  pub idempotency_key : Option Text
  pub accept_language : Text
  pub locale : Option Text
  pub body : Json
  pub refused : List Text → Option (Option ℕ)
  pub connected : Bool

abbrev pub request_with : Incoming → RequestMeta → Request
request_with incoming meta = record {
  meta = meta;
  credentials = incoming.credentials;
  idempotency_key = incoming.idempotency_key;
  body = incoming.body;
}

-- a response with its headers
pub record Reply : Type 0 where
  pub status : ℕ
  pub headers : List (Text × Text)
  pub body : Json

abbrev pub plain : Response → Reply
plain r = record { status = r.status; headers = []; body = r.body }

-- `Response(…, headers={"Content-Language": locale})`
abbrev pub with_language : Response × Text → Reply
with_language found = record {
  status = found.0.status;
  headers = (codes "Content-Language", found.1) ∷ [];
  body = found.0.body;
}

-- The check comes after the authentication and the permissions.
unfoldable pub guarded : (Request → Option Actor → Action (Unit {0})) → View → View
guarded check (open_view post) = open_view (λ request. do check request none; post request)
guarded check (user_view post) =
    user_view (λ request user. do check request (some user); post request user)
guarded check (staff_view post) =
    staff_view (λ request s. do check request (some (Actor.staff_actor s)); post request s)

module _ (sv : Services) (fw : Framework) (get_ident : RequestMeta → Text) where
  unfoldable pub throttle_check : Incoming → Endpoint → Request → Option Actor → Action (Unit {0})
  throttle_check incoming endpoint request user =
      check_throttles incoming.refused
        (throttle_keys fw get_ident (throttle_classes endpoint) request user)

  unfoldable pub run_endpoint : Endpoint → Incoming → RequestMeta → Action Response
  unfolding guarded throttle_check
  run_endpoint endpoint incoming meta =
      dispatch (guarded (throttle_check incoming endpoint) (view_of sv fw endpoint))
        (request_with incoming meta)

  unfoldable pub run_view : ObjectStorage → Route → Incoming → RequestMeta → Action Reply
  unfolding run_endpoint
  run_view os (accounts_endpoint endpoint) incoming meta = do
    r ← run_endpoint endpoint incoming meta
    pure (plain r)
  run_view os storefront_product_list incoming meta = do
    found ← product_list_get incoming.accept_language (request_with incoming meta)
    pure (with_language found)
  run_view os (storefront_product_detail product_id) incoming meta = do
    found ← product_detail_get product_id incoming.accept_language (request_with incoming meta)
    pure (with_language found)
  run_view os localization_suggestion incoming meta = do
    r ← locale_suggestion_view incoming.accept_language (request_with incoming meta)
    pure (plain r)
  run_view os (admin_category_detail category_id) incoming meta = do
    r ← category_detail_get category_id incoming.locale (request_with incoming meta)
    pure (plain r)
  run_view os (admin_product_publish product_id) incoming meta = do
    r ← product_publish_post product_id (request_with incoming meta)
    pure (plain r)
  run_view os admin_media_request_upload incoming meta = do
    r ← request_upload_view fw os (request_with incoming meta)
    pure (plain r)
  run_view os health_live incoming meta = pure (plain live)
  run_view os health_ready incoming meta = pure (plain (ready incoming.connected))
