-- ===== src/Server/Answers.antt =====
-- What the client gets: the response of the view, or the problem details that
-- src/common/api/exceptions.py makes of what it raised, inside the middleware for request ids.
use be_py_eco.Prelude.{ℕ, ◌≡◌, Option, none, some, Text, codes}
use be_py_eco.Errors.{
  Error, validation, not_authenticated, token_not_valid, permission_refused, throttled, accounts,
  catalog, media, translation, localization, idempotency, accounts_status, accounts_code,
  catalog_status, catalog_code, media_status, media_code, translation_status, translation_code,
  localization_status, localization_code, idempotency_status, idempotency_code,
}
use be_py_eco.Errors.Details.{
  accounts_class, accounts_detail, catalog_class, catalog_detail, media_class, media_detail,
  translation_class, translation_detail, localization_class, localization_detail, idempotency_class,
  idempotency_detail,
}
use be_py_eco.Schema.{Json, str, obj, end, field}
use be_py_eco.World.{Result, ok, err, Action, Services}
use be_py_eco.Common.Problem.Handler.{
  ApiException, Raised, unhandled, api_exception, RequestPath, ProblemResponse, exception_handler,
}
use be_py_eco.Common.RequestContext.{RequestMeta, request_id}
use be_py_eco.Common.RequestId.{UuidParser, call_middleware}
use be_py_eco.Common.Http.{Framework}
use be_py_eco.Media.Upload.{ObjectStorage}
use be_py_eco.Server.Routes.{Route, path_of}
use be_py_eco.Server.Views.{Incoming, Reply, run_view}

-- The framework's own exceptions, as its documentation has them: `ValidationError` of a body,
-- `NotAuthenticated`, simplejwt's `InvalidToken`, `PermissionDenied`, `NotFound`, `Throttled`; and
-- Django's answer to what nobody handles.
pub record FrameworkErrors : Type 0 where
  pub validation_error : Json → ApiException
  pub validation_error_status : (j : Json) → (validation_error j).status_code ≡ 400
  pub not_authenticated_error : ApiException
  pub not_authenticated_status : not_authenticated_error.status_code ≡ 401
  pub invalid_token_error : ApiException
  pub invalid_token_status : invalid_token_error.status_code ≡ 401
  pub permission_denied_error : ApiException
  pub permission_denied_status : permission_denied_error.status_code ≡ 403
  pub not_found_error : ApiException
  pub throttled_error : Option ℕ → ApiException
  pub throttled_status : (wait : Option ℕ) → (throttled_error wait).status_code ≡ 429
  pub throttled_wait : (wait : Option ℕ) → (throttled_error wait).wait ≡ wait
  pub server_error : Reply
  pub server_error_status : server_error.status ≡ 500

-- an `APIException` that is raised with its class's defaults
unfoldable pub business_exception : Text → ℕ → Text → Text → ApiException
business_exception name status code detail = record {
  class_name = name;
  status_code = status;
  default_code = code;
  default_detail = detail;
  detail = some detail;
  full_details = obj (field (codes "message") (str detail) (field (codes "code") (str code) end));
  auth_header = none;
  wait = none;
}

-- the business errors of the modules; `none` for another exception
unfoldable pub business : Error → Option ApiException
unfolding business_exception
business (accounts e) = some (
    business_exception (accounts_class e) (accounts_status e) (accounts_code e) (accounts_detail e))
business (catalog e) =
    some
      (business_exception (catalog_class e) (catalog_status e) (catalog_code e) (catalog_detail e))
business (media e) =
    some (business_exception (media_class e) (media_status e) (media_code e) (media_detail e))
business (translation e) = some (
    business_exception (translation_class e) (translation_status e) (translation_code e)
      (translation_detail e))
business (localization e) = some (
    business_exception (localization_class e) (localization_status e) (localization_code e)
      (localization_detail e))
business (idempotency e) = some (
    business_exception (idempotency_class e) (idempotency_status e) (idempotency_code e)
      (idempotency_detail e))
business _ = none

abbrev raised_or_unhandled : Option ApiException → Raised
raised_or_unhandled none = unhandled
raised_or_unhandled (some exc) = api_exception exc

abbrev reply_or : Reply → Option ProblemResponse → Reply
reply_or other none = other
reply_or other (some p) = record { status = p.status; headers = p.headers; body = p.body }

-- `request.path` and `request.id` of the handler's context
abbrev pub context_of : Route → RequestMeta → RequestPath
context_of route meta = record { path = path_of route; id = request_id (some meta) }

module _ (fe : FrameworkErrors) where
  unfoldable pub raised : Json → Error → Raised
  unfolding business
  raised body validation = api_exception (fe.validation_error body)
  raised body not_authenticated = api_exception fe.not_authenticated_error
  raised body token_not_valid = api_exception fe.invalid_token_error
  raised body permission_refused = api_exception fe.permission_denied_error
  raised body (throttled wait) = api_exception (fe.throttled_error wait)
  raised body e = raised_or_unhandled (business e)

  unfoldable pub error_reply : Route → Json → RequestMeta → Error → Reply
  unfolding raised
  error_reply route body meta e = reply_or fe.server_error (
      exception_handler fe.not_found_error fe.permission_denied_error (raised body e)
        (some (context_of route meta)))

  abbrev pub render : Incoming → RequestMeta → Result Reply → Reply
  render incoming meta (ok reply) = reply
  render incoming meta (err e) = error_reply incoming.route incoming.body meta e

module _ (sv : Services) (fw : Framework) (fe : FrameworkErrors) (os : ObjectStorage)
    (get_ident : RequestMeta → Text) where
  -- the response to a request, whatever its view raises
  unfoldable pub answer : Incoming → RequestMeta → Action Reply
  answer incoming meta w =
      let (r, w') = run_view sv fw get_ident os incoming.route incoming meta w in
      (ok (render fe incoming meta r), w')

  -- the response with its header `X-Request-ID`
  unfoldable pub serve_request : UuidParser → Incoming → Action (Reply × Text)
  unfolding answer
  serve_request up incoming =
      call_middleware up incoming.x_request_id incoming.remote_addr incoming.x_forwarded_for
        (answer incoming)
