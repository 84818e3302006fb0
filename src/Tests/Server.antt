-- ===== src/Tests/Server.antt =====
-- Requests to the whole server, and histories of them.
use be_py_eco.Prelude.{
  ℕ, ◌≡◌, refl, true, Option, none, some, List, [], ◌∷◌, Text, codes, eq_text, filter_rows,
  first_row,
}
use be_py_eco.Errors.{catalog, product_not_found}
use be_py_eco.Schema.{Json, null, obj, end}
use be_py_eco.World.{World, ok}
use be_py_eco.Common.RequestContext.{RequestMeta}
use be_py_eco.Common.RequestId.{UuidParser}
use be_py_eco.Common.RequestId.Echo.{meta_of}
use be_py_eco.Common.Problem.Handler.{ApiException}
use be_py_eco.Common.Http.{Credentials, anonymous}
use be_py_eco.Accounts.Api.Routes.{accounts_me, accounts_register}
use be_py_eco.Catalog.Api.{product_detail_get}
use be_py_eco.Common.Http.{authenticate}
use be_py_eco.Common.Authentication.{get_user}
use be_py_eco.Accounts.Api.Routes.{view_of}
use be_py_eco.Catalog.Storefront.{product_detail_view}
use be_py_eco.Accounts.Intact.{Intact}
use be_py_eco.Server.Routes.{
  Route, accounts_endpoint, storefront_product_detail, admin_product_publish,
}
use be_py_eco.Server.Views.{Incoming, Reply, run_view}
use be_py_eco.Server.Answers.{FrameworkErrors, answer, business}
use be_py_eco.Server.Events.{
  Event, requested, upload_created, countries_seeded, master_admin_wanted, Platform, run_events,
}
use be_py_eco.Server.Histories.{run_events-Intact}
use be_py_eco.Server.Problems.{Reported, answer-business_error}
use be_py_eco.Server.Access.{answer-unauthenticated, answer-customer_refused}
use be_py_eco.Tests.Samples.{services, empty, world, ann, signed_in}
use be_py_eco.Tests.Framework.{framework, as_ann, register_body}
use be_py_eco.Tests.Content.{media_services}
use be_py_eco.Tests.SignIn.{storage}

abbrev exception : ℕ → Text → Option ℕ → ApiException
exception status code wait = record {
  class_name = code;
  status_code = status;
  default_code = code;
  default_detail = code;
  detail = some code;
  full_details = obj end;
  auth_header = none;
  wait = wait;
}

abbrev framework_errors : FrameworkErrors
framework_errors = record {
  validation_error = λ j. exception 400 (codes "invalid") none;
  validation_error_status = λ j. refl;
  not_authenticated_error = exception 401 (codes "not_authenticated") none;
  not_authenticated_status = refl;
  invalid_token_error = exception 401 (codes "token_not_valid") none;
  invalid_token_status = refl;
  permission_denied_error = exception 403 (codes "permission_denied") none;
  permission_denied_status = refl;
  not_found_error = exception 404 (codes "not_found") none;
  throttled_error = exception 429 (codes "throttled");
  throttled_status = λ wait. refl;
  throttled_wait = λ wait. refl;
  server_error = record { status = 500; headers = []; body = null };
  server_error_status = refl;
}

abbrev no_ident : RequestMeta → Text
no_ident meta = []

abbrev uuid_parser : UuidParser
uuid_parser = record { parse_uuid = λ t. some 7 }

abbrev platform : Platform
platform = record {
  services = services;
  framework = framework;
  framework_errors = framework_errors;
  storage = storage;
  media_services = media_services;
  uuid_parser = uuid_parser;
  get_ident = no_ident;
}

abbrev incoming_at : Route → Credentials → Json → Incoming
incoming_at route credentials body = record {
  route = route;
  x_request_id = some (1 ∷ []);
  remote_addr = none;
  x_forwarded_for = none;
  credentials = credentials;
  idempotency_key = none;
  accept_language = codes "en";
  locale = none;
  body = body;
  refused = λ keys. none;
  connected = true;
}

abbrev registration : Incoming
registration = incoming_at (accounts_endpoint accounts_register) anonymous register_body

abbrev history : List Event
history =
    upload_created 3
    ∷ requested registration
    ∷ master_admin_wanted (98 ∷ []) none (7 ∷ [])
    ∷ countries_seeded
    ∷ []

run_events-Intact_example : Intact (world empty).db (run_events platform history (world empty)).db
run_events-Intact_example = run_events-Intact platform history (world empty) tt tt

abbrev page : Incoming
page = incoming_at (storefront_product_detail 1) anonymous null

answer-business_error_example :
    (reply : Reply) × (answer services framework framework_errors storage no_ident page
        (meta_of 7 none none)
        (world empty)
      ≡ (
        ok reply,
        (run_view services framework no_ident storage page.route page
            (meta_of 7 none none)
            (world empty)).1,
      ))
    × Reported page.route (meta_of 7 none none) (catalog product_not_found) reply
unfolding business run_view product_detail_get authenticate product_detail_view filter_rows
answer-business_error_example =
    answer-business_error services framework framework_errors storage no_ident page
      (meta_of 7 none none) (world empty) (catalog product_not_found) refl refl

answer-unauthenticated_example :
    let incoming = incoming_at (accounts_endpoint accounts_me) anonymous null in
    (reply : Reply) × (answer services framework framework_errors storage no_ident incoming
        (meta_of 7 none none)
        (world empty)
      ≡ (ok reply, world empty))
    × (reply.status ≡ 401)
unfolding view_of
answer-unauthenticated_example =
    answer-unauthenticated services framework no_ident storage
      (incoming_at (accounts_endpoint accounts_me) anonymous null) (meta_of 7 none none)
      (world empty) framework_errors refl refl

answer-customer_refused_example :
    let incoming = incoming_at (admin_product_publish 1) as_ann null in
    (reply : Reply) × (answer services framework framework_errors storage no_ident incoming
        (meta_of 7 none none)
        (world signed_in)
      ≡ (ok reply, world signed_in))
    × (reply.status ≡ 403)
unfolding eq_text first_row get_user view_of
answer-customer_refused_example =
    answer-customer_refused services framework no_ident storage
      (incoming_at (admin_product_publish 1) as_ann null) (meta_of 7 none none) (world signed_in)
      framework_errors ann refl refl
