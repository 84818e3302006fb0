-- ===== src/Server/Safe.antt =====
-- The requests to the server keep the database intact.
use be_py_eco.Prelude.{
  ℕ, ◌≡◌, refl, inl, inr, Bool, Option, none, some, List, [], ◌∷◌, arith, ◌==◌, Bool-cases, Text,
  is_empty, update_rows,
}
use be_py_eco.Schema.{Product, ProductStatus}
use be_py_eco.World.{modify, Services, Action}
use be_py_eco.Common.Authentication.{Actor}
use be_py_eco.Common.RequestContext.{RequestMeta}
use be_py_eco.Common.RequestId.{id_or_new, UuidParser, choose_request_id, call_middleware}
use be_py_eco.Common.Http.{Request, Framework, staff_only}
use be_py_eco.Common.Outbox.{emit_event}
use be_py_eco.Common.Throttling.{verdict, check_throttles}
use be_py_eco.Catalog.Api.{
  product_list_get, product_detail_get, category_detail_get, product_publish_post,
}
use be_py_eco.Catalog.Products.{with_status, save_status}
use be_py_eco.Catalog.Publish.{publish_product, product_publish_view}
use be_py_eco.Catalog.Storefront.{product_list_view, product_detail_view}
use be_py_eco.Localization.{suggest_locale}
use be_py_eco.Localization.Api.{locale_suggestion_view}
use be_py_eco.Media.Upload.{ObjectStorage, request_upload}
use be_py_eco.Media.Api.{request_upload_view}
use be_py_eco.Accounts.Api.Routes.{view_of, Endpoint, View, open_view, user_view, staff_view}
use be_py_eco.Accounts.Intact.{Safe, product_ids}
use be_py_eco.Accounts.Intact.Elsewhere.{elsewhere_rules, modify-Safe}
use be_py_eco.Accounts.Intact.Views.{authenticate-Safe, authenticated-Safe, is_staff-Safe}
use be_py_eco.Accounts.Intact.Endpoints.{ViewSafe, dispatch-Safe, view_of-Safe}
use be_py_eco.Server.Routes.{
  Route, accounts_endpoint, storefront_product_list, localization_suggestion,
  admin_media_request_upload, health_live, health_ready, storefront_product_detail,
  admin_category_detail, admin_product_publish,
}
use be_py_eco.Server.Views.{Incoming, guarded, throttle_check, run_endpoint, run_view, request_with}
use be_py_eco.Server.Answers.{FrameworkErrors, answer, serve_request}

pub ruleset request_rules = (elsewhere_rules, authenticate-Safe, authenticated-Safe, is_staff-Safe)

guarded-Safe :
    (check : Request → Option Actor → Action (Unit {0})) (v : View)
    → ((request : Request) (user : Option Actor) → Safe (check request user))
    → ViewSafe v
    → ViewSafe (guarded check v)
unfolding guarded
guarded-Safe check (open_view post) c v = λ request. search (request_rules, c, v) depth 20
guarded-Safe check (user_view post) c v = λ request user. search (request_rules, c, v) depth 20
guarded-Safe check (staff_view post) c v = λ request s. search (request_rules, c, v) depth 20

verdict-Safe : (v : Option (Option ℕ)) → Safe (verdict v)
verdict-Safe none = search request_rules
verdict-Safe (some wait) = search request_rules

product_list_get-Safe : (lang : Text) (request : Request) → Safe (product_list_get lang request)
unfolding product_list_get product_list_view
product_list_get-Safe lang request = search request_rules depth 20

product_detail_get-Safe :
    (id : ℕ) (lang : Text) (request : Request) → Safe (product_detail_get id lang request)
unfolding product_detail_get product_detail_view
product_detail_get-Safe id lang request = search request_rules depth 20

category_detail_get-Safe :
    (id : ℕ) (locale : Option Text) (request : Request)
    → Safe (category_detail_get id locale request)
unfolding category_detail_get staff_only
category_detail_get-Safe id locale request = search request_rules depth 20

locale_suggestion_view-Safe :
    (lang : Text) (request : Request) → Safe (locale_suggestion_view lang request)
unfolding locale_suggestion_view suggest_locale
locale_suggestion_view-Safe lang request = search request_rules depth 20

same_product_ids :
    (id : ℕ) (status : ProductStatus) (q : Product → Bool) (ps : List Product)
    → product_ids (update_rows q (with_status status) ps) ≡ product_ids ps
unfolding product_ids update_rows
same_product_ids id status q [] = refl
same_product_ids id status q (p ∷ ps) = ground (arith, same_product_ids id status q ps)

save_status-Safe : (id : ℕ) (status : ProductStatus) → Safe (modify (save_status id status))
save_status-Safe id status =
    modify-Safe (save_status id status) (λ db. refl)
      (λ db. same_product_ids id status (λ p. p.id == id) db.products) (λ db. refl) (λ db. refl)
      (λ db. refl)

product_publish_post-Safe : (id : ℕ) (request : Request) → Safe (product_publish_post id request)
unfolding product_publish_post product_publish_view publish_product emit_event staff_only
product_publish_post-Safe id request = search (request_rules, save_status-Safe) depth 40

request_upload_view-Safe :
    (fw : Framework) (os : ObjectStorage) (request : Request)
    → Safe (request_upload_view fw os request)
unfolding request_upload_view request_upload staff_only
request_upload_view-Safe fw os request = search request_rules depth 30

id_or_new-Safe : (id : Option ℕ) → Safe (id_or_new id)
id_or_new-Safe none = search request_rules
id_or_new-Safe (some id) = search request_rules

choose_request_id-Safe : (up : UuidParser) (given : Option Text) → Safe (choose_request_id up given)
unfolding choose_request_id
choose_request_id-Safe up none = search request_rules
choose_request_id-Safe up (some given) = elim (Bool-cases (is_empty given)) [
  | inl e ↦ rw e (search request_rules)
  | inr e ↦ rw e (id_or_new-Safe (up.parse_uuid given))
]

module _ (sv : Services) (fw : Framework) (get_ident : RequestMeta → Text)
    (os : ObjectStorage) where
  throttle_check-Safe :
      (incoming : Incoming) (endpoint : Endpoint) (request : Request) (user : Option Actor)
      → Safe (throttle_check sv fw get_ident incoming endpoint request user)
  unfolding throttle_check check_throttles
  throttle_check-Safe incoming endpoint request user = search verdict-Safe

  run_endpoint-Safe :
      (endpoint : Endpoint) (incoming : Incoming) (meta : RequestMeta)
      → Safe (run_endpoint sv fw get_ident endpoint incoming meta)
  unfolding run_endpoint
  run_endpoint-Safe endpoint incoming meta =
      let check = throttle_check sv fw get_ident incoming endpoint in
      dispatch-Safe (guarded check (view_of sv fw endpoint)) (request_with incoming meta) (
        guarded-Safe check (view_of sv fw endpoint) (throttle_check-Safe incoming endpoint)
          (view_of-Safe sv fw endpoint))

  run_view-Safe :
      (route : Route) (incoming : Incoming) (meta : RequestMeta)
      → Safe (run_view sv fw get_ident os route incoming meta)
  unfolding run_view
  run_view-Safe (accounts_endpoint e) incoming meta =
      search (request_rules, run_endpoint-Safe) depth 20
  run_view-Safe storefront_product_list incoming meta =
      search (request_rules, product_list_get-Safe) depth 20
  run_view-Safe (storefront_product_detail id) incoming meta =
      search (request_rules, product_detail_get-Safe) depth 20
  run_view-Safe localization_suggestion incoming meta =
      search (request_rules, locale_suggestion_view-Safe) depth 20
  run_view-Safe (admin_category_detail id) incoming meta =
      search (request_rules, category_detail_get-Safe) depth 20
  run_view-Safe (admin_product_publish id) incoming meta =
      search (request_rules, product_publish_post-Safe) depth 20
  run_view-Safe admin_media_request_upload incoming meta =
      search (request_rules, request_upload_view-Safe) depth 20
  run_view-Safe health_live incoming meta = search request_rules
  run_view-Safe health_ready incoming meta = search request_rules

  module _ (fe : FrameworkErrors) (up : UuidParser) where
    answer-Safe :
        (incoming : Incoming) (meta : RequestMeta)
        → Safe (answer sv fw fe os get_ident incoming meta)
    unfolding answer Safe
    answer-Safe incoming meta = run_view-Safe incoming.route incoming meta

    pub serve_request-Safe :
        (incoming : Incoming) → Safe (serve_request sv fw fe os get_ident up incoming)
    unfolding serve_request call_middleware
    serve_request-Safe incoming =
        search (request_rules, choose_request_id-Safe, answer-Safe) depth 20
