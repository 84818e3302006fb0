-- ===== src/Server/Shapes.antt =====
-- What the views answer, against the documentation.
use be_py_eco.Prelude.{ℕ, ◌≡◌, Bool, true, false, not, Option, arith, Text}
use be_py_eco.Server.Documentation.{Documented, documented_endpoint, documented}
use be_py_eco.World.{◌>>=◌, pure, Yields-map, Action, Yields, Services}
use be_py_eco.Common.Authentication.{Actor}
use be_py_eco.Common.Idempotency.{Response}
use be_py_eco.Common.RequestContext.{RequestMeta}
use be_py_eco.Common.Http.{Framework, Request}
use be_py_eco.Catalog.Api.{
  product_list_get, product_detail_get, category_detail_get, product_publish_post,
}
use be_py_eco.Localization.Api.{locale_suggestion_view}
use be_py_eco.Media.Upload.{ObjectStorage}
use be_py_eco.Media.Api.{request_upload_view}
use be_py_eco.Accounts.Api.Routes.{
  View, open_view, user_view, staff_view, Endpoint, dispatch, view_of,
}
use be_py_eco.Server.Routes.{
  Route, accounts_endpoint, storefront_product_list, localization_suggestion,
  admin_media_request_upload, health_live, health_ready, storefront_product_detail,
  admin_category_detail, admin_product_publish,
}
use be_py_eco.Server.Views.{
  throttle_check, Incoming, Reply, plain, with_language, guarded, run_endpoint, run_view,
  request_with,
}
use be_py_eco.Server.Meets.{Meets, MeetsFor, ViewMeets, shape_rules}
use be_py_eco.Server.Endpoints.{is_sensitive, view_of-Meets}

guarded-Meets :
    (doc : Documented) (check : Request → Option Actor → Action (Unit {0})) (v : View)
    → ViewMeets doc v
    → ViewMeets doc (guarded check v)
unfolding guarded
guarded-Meets doc check (open_view post) v = λ request. search (shape_rules, v request)
guarded-Meets doc check (user_view post) v = λ request user. search (shape_rules, v request user)
guarded-Meets doc check (staff_view post) v = λ request s. search (shape_rules, v request s)

dispatch-Meets :
    (doc : Documented) (v : View) (request : Request)
    → ViewMeets doc v
    → Yields (MeetsFor doc request) (dispatch v request)
unfolding dispatch
dispatch-Meets doc (open_view post) request v = v request
dispatch-Meets doc (user_view post) request v = search (shape_rules, v request)
dispatch-Meets doc (staff_view post) request v = search (shape_rules, v request)

-- the routes whose answers carry the id of the request
abbrev pub traced_route : Route → Bool
traced_route (accounts_endpoint e) = not (is_sensitive e)
traced_route health_live = false
traced_route health_ready = false
traced_route _ = true

abbrev MeetsReply : Route → RequestMeta → Reply → Type 0
MeetsReply route meta reply = Meets (documented route) meta reply.status reply.body

abbrev FoundFor : Documented → Request → Response × Text → Type 0
FoundFor doc request found = MeetsFor doc request found.0

product_list_get-Meets :
    (lang : Text) (request : Request)
    → Yields (FoundFor (documented storefront_product_list) request) (product_list_get lang request)
unfolding product_list_get
product_list_get-Meets lang request = search shape_rules depth 20

product_detail_get-Meets :
    (id : ℕ) (lang : Text) (request : Request)
    → Yields
        (FoundFor (documented (storefront_product_detail id)) request)
        (product_detail_get id lang request)
unfolding product_detail_get
product_detail_get-Meets id lang request = search shape_rules depth 20

locale_suggestion_view-Meets :
    (lang : Text) (request : Request)
    → Yields
        (MeetsFor (documented localization_suggestion) request)
        (locale_suggestion_view lang request)
unfolding locale_suggestion_view
locale_suggestion_view-Meets lang request = search shape_rules depth 20

category_detail_get-Meets :
    (id : ℕ) (locale : Option Text) (request : Request)
    → Yields
        (MeetsFor (documented (admin_category_detail id)) request)
        (category_detail_get id locale request)
unfolding category_detail_get
category_detail_get-Meets id locale request = search shape_rules depth 20

product_publish_post-Meets :
    (id : ℕ) (request : Request)
    → Yields
        (MeetsFor (documented (admin_product_publish id)) request)
        (product_publish_post id request)
unfolding product_publish_post
product_publish_post-Meets id request = search shape_rules depth 20

request_upload_view-Meets :
    (fw : Framework) (os : ObjectStorage) (request : Request)
    → Yields
        (MeetsFor (documented admin_media_request_upload) request)
        (request_upload_view fw os request)
unfolding request_upload_view
request_upload_view-Meets fw os request = search shape_rules depth 20

module _ (incoming : Incoming) (meta : RequestMeta) where
  plain-Meets :
      (route : Route) (m : Action Response)
      → Yields (MeetsFor (documented route) (request_with incoming meta)) m
      → Yields (MeetsReply route meta) (m >>= λ r. pure (plain r))
  plain-Meets route m y =
      Yields-map (MeetsReply route meta) (MeetsFor (documented route) (request_with incoming meta))
        m plain y (λ r s. s)

  with_language-Meets :
      (route : Route) (m : Action (Response × Text))
      → Yields (FoundFor (documented route) (request_with incoming meta)) m
      → Yields (MeetsReply route meta) (m >>= λ found. pure (with_language found))
  with_language-Meets route m y =
      Yields-map (MeetsReply route meta) (FoundFor (documented route) (request_with incoming meta))
        m with_language y (λ r s. s)

  module _ (sv : Services) (fw : Framework) (get_ident : RequestMeta → Text)
      (os : ObjectStorage) where
    run_endpoint-Meets :
        (e : Endpoint)
        → is_sensitive e ≡ false
        → Yields
            (MeetsFor (documented_endpoint e) (request_with incoming meta))
            (run_endpoint sv fw get_ident e incoming meta)
    unfolding run_endpoint
    run_endpoint-Meets e s =
        let check = throttle_check sv fw get_ident incoming e in
        dispatch-Meets (documented_endpoint e) (guarded check (view_of sv fw e))
          (request_with incoming meta)
          (guarded-Meets (documented_endpoint e) check (view_of sv fw e) (view_of-Meets sv fw e s))

    -- what a view of such a route returns is documented
    pub run_view-Meets :
        (route : Route)
        → traced_route route ≡ true
        → Yields (MeetsReply route meta) (run_view sv fw get_ident os route incoming meta)
    unfolding run_view
    run_view-Meets (accounts_endpoint e) t =
        plain-Meets (accounts_endpoint e) (run_endpoint sv fw get_ident e incoming meta)
          (run_endpoint-Meets e (ground arith))
    run_view-Meets storefront_product_list t =
        with_language-Meets storefront_product_list _
          (product_list_get-Meets incoming.accept_language (request_with incoming meta))
    run_view-Meets (storefront_product_detail id) t =
        with_language-Meets (storefront_product_detail id) _
          (product_detail_get-Meets id incoming.accept_language (request_with incoming meta))
    run_view-Meets localization_suggestion t =
        plain-Meets localization_suggestion _
          (locale_suggestion_view-Meets incoming.accept_language (request_with incoming meta))
    run_view-Meets (admin_category_detail id) t =
        plain-Meets (admin_category_detail id) _
          (category_detail_get-Meets id incoming.locale (request_with incoming meta))
    run_view-Meets (admin_product_publish id) t =
        plain-Meets (admin_product_publish id) _
          (product_publish_post-Meets id (request_with incoming meta))
    run_view-Meets admin_media_request_upload t =
        plain-Meets admin_media_request_upload _
          (request_upload_view-Meets fw os (request_with incoming meta))
    run_view-Meets health_live t = absurd (ground arith)
    run_view-Meets health_ready t = absurd (ground arith)
