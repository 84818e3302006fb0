-- ===== src/Common/Problem/Handler.antt =====
-- src/common/api/exceptions.py: `exception_handler`, the whole Problem Details response.
use be_py_eco.Prelude.{
  ℕ, Option, none, some, List, [], ◌∷◌, ◌++◌, if◌then◌else◌, Text, codes, eq_text, is_empty,
}
use be_py_eco.Schema.{Json, num, str, arr, obj, Items, nil, cons, end, field}
use be_py_eco.Common.Render.{decimal}
use be_py_eco.Common.Problem.{FieldError, Problem, problem}

-- what the handler reads of an `APIException`; `detail` is there when it is a string, and
-- `full_details` is `get_full_details()`
pub record ApiException : Type 0 where
  pub class_name : Text
  pub status_code : ℕ
  pub default_code : Text
  pub default_detail : Text
  pub detail : Option Text
  pub full_details : Json
  pub auth_header : Option Text
  pub wait : Option ℕ

pub data Raised : Type 0 where
  http404 django_permission_denied unhandled : Raised
  api_exception : ApiException → Raised

-- `request.path` and `str(request.id)` of the context's request
pub record RequestPath : Type 0 where
  pub path : Text
  pub id : Text

pub record ProblemResponse : Type 0 where
  pub status : ℕ
  pub headers : List (Text × Text)
  pub body : Json

-- `_TITLE_BY_CODE.get(code, …)`
abbrev pub titles : List (Text × Text)
titles =
    (codes "invalid", codes "Validation Error")
    ∷ (codes "not_found", codes "Not Found")
    ∷ (codes "authentication_failed", codes "Authentication Failed")
    ∷ (codes "not_authenticated", codes "Authentication Required")
    ∷ (codes "permission_denied", codes "Permission Denied")
    ∷ (codes "throttled", codes "Too Many Requests")
    ∷ (codes "parse_error", codes "Malformed Request")
    ∷ (codes "not_acceptable", codes "Not Acceptable")
    ∷ (codes "unsupported_media_type", codes "Unsupported Media Type")
    ∷ (codes "method_not_allowed", codes "Method Not Allowed")
    ∷ []

unfoldable pub title_of : Text → List (Text × Text) → Text → Text
title_of code [] class_name = class_name
title_of code (t ∷ ts) class_name = if eq_text t.0 code then t.1 else title_of code ts class_name

-- `if auth_header:`
abbrev auth_headers : Option Text → List (Text × Text)
auth_headers none = []
auth_headers (some h) = if is_empty h then [] else (codes "WWW-Authenticate", h) ∷ []

abbrev wait_headers : Option ℕ → List (Text × Text)
wait_headers none = []
wait_headers (some n) = (codes "Retry-After", decimal n) ∷ []

abbrev detail_or : Option Text → Text → Text
detail_or none other = other
detail_or (some d) other = d

abbrev path_or : Option RequestPath → Text
path_or none = []
path_or (some r) = r.path

abbrev trace_or : Option RequestPath → Text
trace_or none = []
trace_or (some r) = r.id

unfoldable pub error_items : List FieldError → Items
error_items [] = nil
error_items (e ∷ es) =
    cons
      (obj (
        field (codes "field") (str e.path)
          (field (codes "code") (str e.code) (field (codes "message") (str e.message) end))))
      (error_items es)

unfoldable pub problem_body : ApiException → Option RequestPath → Problem → Json
unfolding title_of error_items
problem_body exc request p = obj (
    field (codes "type") (str (codes "about:blank")) (
      field (codes "title") (str (title_of p.code titles exc.class_name)) (
        field (codes "status") (num exc.status_code) (
          field (codes "code") (str p.code) (
            field (codes "detail") (str (detail_or exc.detail exc.default_detail)) (
              field (codes "instance") (str (path_or request)) (
                field (codes "errors") (arr (error_items p.errors))
                  (field (codes "trace_id") (str (trace_or request)) end))))))))

unfoldable pub respond : ApiException → Option RequestPath → ProblemResponse
unfolding problem_body
respond exc request = record {
  status = exc.status_code;
  headers = auth_headers exc.auth_header ++ wait_headers exc.wait;
  body = problem_body exc request (problem exc.default_code exc.full_details);
}

-- `not_found` and `permission_denied` are the framework's `NotFound()` and `PermissionDenied()`
module _ (not_found permission_denied : ApiException) where
  unfoldable pub exception_handler : Raised → Option RequestPath → Option ProblemResponse
  unfolding respond
  exception_handler http404 request = some (respond not_found request)
  exception_handler django_permission_denied request = some (respond permission_denied request)
  exception_handler unhandled request = none
  exception_handler (api_exception exc) request = some (respond exc request)
