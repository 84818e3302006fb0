-- ===== src/Server/Problems.antt =====
-- What the client reads when a view raises.
use be_py_eco.Server.Views.{run_view, Incoming, Reply}
use be_py_eco.Prelude.{
  ℕ, ◌≡◌, refl, true, Option, none, some, [], arith, is_some, Text, codes, eq_text,
}
use be_py_eco.Errors.{
  default_code, Error, status_code, validation, not_authenticated, token_not_valid,
  permission_refused, throttled, accounts, catalog, media, translation, localization, idempotency,
  failure,
}
use be_py_eco.Schema.{Json, num, str, arr, obj, nil}
use be_py_eco.World.{World, ok, err, Services}
use be_py_eco.Common.Http.{Framework}
use be_py_eco.Media.Upload.{ObjectStorage}
use be_py_eco.Common.Problem.{
  get_key, has_key, is_leaf, only_leaf_keys, leaf_error, flatten_full_details, problem,
}
use be_py_eco.Common.Problem.Handler.{
  api_exception, respond, exception_handler, problem_body, error_items,
}
use be_py_eco.Common.RequestContext.{RequestMeta, request_id}
use be_py_eco.Server.Routes.{Route, path_of}
use be_py_eco.Server.Answers.{
  answer, FrameworkErrors, business, business_exception, raised, error_reply,
}

-- a member of an object
abbrev pub member : Text → Json → Option Json
member key (obj fs) = get_key key fs
member key _ = none

abbrev pub as_str : Option Text → Option Json
as_str none = none
as_str (some t) = some (str t)

abbrev pub status_or_500 : Option ℕ → ℕ
status_or_500 none = 500
status_or_500 (some status) = status

-- what the client reads of a business error
pub record Reported (route : Route) (meta : RequestMeta) (e : Error) (reply : Reply) : Type 0 where
  pub status : some reply.status ≡ status_code e
  pub code : member (codes "code") reply.body ≡ as_str (default_code e)
  pub errors : member (codes "errors") reply.body ≡ some (arr nil)
  pub body_status : member (codes "status") reply.body ≡ some (num reply.status)
  pub at_path : member (codes "instance") reply.body ≡ some (str (path_of route))
  pub trace_id : member (codes "trace_id") reply.body ≡ some (str (request_id (some meta)))
  pub headers : reply.headers ≡ []

module _ (fe : FrameworkErrors) (route : Route) (body : Json) (meta : RequestMeta) where
  -- the status that the client gets is that of the error, or 500
  pub error_reply-status :
      (e : Error) → (error_reply fe route body meta e).status ≡ status_or_500 (status_code e)
  unfolding error_reply raised business business_exception respond exception_handler status_code
  error_reply-status (accounts e) = refl
  error_reply-status (catalog e) = refl
  error_reply-status (media e) = refl
  error_reply-status (translation e) = refl
  error_reply-status (localization e) = refl
  error_reply-status (idempotency e) = refl
  error_reply-status validation = fe.validation_error_status body
  error_reply-status not_authenticated = fe.not_authenticated_status
  error_reply-status token_not_valid = fe.invalid_token_status
  error_reply-status permission_refused = fe.permission_denied_status
  error_reply-status (throttled wait) = fe.throttled_status wait
  error_reply-status (failure e) = fe.server_error_status

  -- an error that is raised as a business exception
  reported :
      (e : Error) (name : Text) (status : ℕ) (code detail : Text)
      → raised fe body e ≡ api_exception (business_exception name status code detail)
      → status_code e ≡ some status
      → default_code e ≡ some code
      → Reported route meta e (error_reply fe route body meta e)
  unfolding error_reply business_exception respond exception_handler problem_body get_key eq_text
      problem flatten_full_details is_leaf has_key only_leaf_keys leaf_error error_items
  reported e name status code detail r s c = record {
    status = rw (r, s) refl;
    code = rw (r, c) refl;
    errors = rw r refl;
    body_status = rw r refl;
    at_path = rw r refl;
    trace_id = rw r refl;
    headers = rw r refl;
  }

  error_reply-Reported :
      (e : Error)
      → is_some (business e) ≡ true
      → Reported route meta e (error_reply fe route body meta e)
  unfolding raised business status_code default_code
  error_reply-Reported (accounts e) b = reported (accounts e) _ _ _ _ refl refl refl
  error_reply-Reported (catalog e) b = reported (catalog e) _ _ _ _ refl refl refl
  error_reply-Reported (media e) b = reported (media e) _ _ _ _ refl refl refl
  error_reply-Reported (translation e) b = reported (translation e) _ _ _ _ refl refl refl
  error_reply-Reported (localization e) b = reported (localization e) _ _ _ _ refl refl refl
  error_reply-Reported (idempotency e) b = reported (idempotency e) _ _ _ _ refl refl refl
  error_reply-Reported _ b = absurd (ground arith)

module _ (sv : Services) (fw : Framework) (fe : FrameworkErrors) (os : ObjectStorage)
    (get_ident : RequestMeta → Text) (incoming : Incoming) (meta : RequestMeta) (w : World) where
  -- a view that raises is answered, in the world that it leaves
  pub answer-raised :
      (e : Error)
      → (run_view sv fw get_ident os incoming.route incoming meta w).0 ≡ err e
      → answer sv fw fe os get_ident incoming meta w ≡ (
        ok (error_reply fe incoming.route incoming.body meta e),
        (run_view sv fw get_ident os incoming.route incoming meta w).1,
      )
  unfolding answer
  answer-raised e h = rw h refl

  -- A business error that a view raises reaches the client with its own status and its code, under
  -- the path and the id of the request, with no field errors and no further headers, and the world
  -- is the one that the view left.
  pub answer-business_error :
      (e : Error)
      → is_some (business e) ≡ true
      → (run_view sv fw get_ident os incoming.route incoming meta w).0 ≡ err e
      → (reply : Reply) × (answer sv fw fe os get_ident incoming meta w
          ≡ (ok reply, (run_view sv fw get_ident os incoming.route incoming meta w).1))
        × Reported incoming.route meta e reply
  answer-business_error e b h = (
    error_reply fe incoming.route incoming.body meta e,
    answer-raised e h,
    error_reply-Reported fe incoming.route incoming.body meta e b,
  )
