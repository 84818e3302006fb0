-- ===== src/Accounts/Api/Storefront.antt =====
-- src/modules/accounts/api/storefront/views.py, as it answers a request that no throttle stops.
-- `cast(Customer, request.user)` does not check: `JWTAuthentication` accepts staff too, and what
-- the view does with a staff member is written out.
use be_py_eco.Prelude.{
  ℕ, some, List, [], ◌∷◌, leb, if◌then◌else◌, Text, codes, filter_rows, exists_row,
}
use be_py_eco.Errors.{
  accounts, failure, validation, attribute_error, value_error, email_already_taken,
}
use be_py_eco.Schema.{
  Customer, Session, session_is_active, is_email_verified, Json, bool, num, str, arr, obj, Items,
  nil, cons, end, field,
}
use be_py_eco.World.{
  Action, pure, raise, reads, or_raise, raise_if, now, next_id, Services, ◌>>=◌, ◌>>◌,
}
use be_py_eco.Common.Authentication.{Actor, customer_actor, staff_actor}
use be_py_eco.Common.Render.{uuid_text}
use be_py_eco.Common.Idempotency.{Response}
use be_py_eco.Common.Http.{Framework, Request, empty_response, data_response}
use be_py_eco.Accounts.Tokens.{normalize_email, generate_token}
use be_py_eco.Accounts.Register.{register_customer, verify_email}
use be_py_eco.Accounts.Password.{request_password_reset, confirm_password_reset}
use be_py_eco.Accounts.EmailChange.{is_taken_by_other, request_email_change, confirm_email_change}
use be_py_eco.Accounts.Sessions.{
  rotate_refresh_token, revoke_session, revoke_all_sessions, is_open_session,
}
use be_py_eco.Accounts.Login.{login_customer, login_with_google}
use be_py_eco.Localization.{validate_locale_and_currency, update_locale_preference}
use be_py_eco.Accounts.Api.Forms.{
  verify_email_form, google_login_form, refresh_token_form, confirm_change_form, login_form,
  register_form, request_reset_form, confirm_reset_form, email_change_form, locale_form,
}

abbrev pub customer_representation : Customer → Json
customer_representation c = obj (
    field (codes "id") (str (uuid_text c.id)) (
      field (codes "email") (str c.email) (
        field (codes "email_verified") (bool (is_email_verified c)) (
          field (codes "preferred_locale") (str c.preferred_locale)
            (field (codes "preferred_currency") (str c.preferred_currency) end)))))

abbrev pub token_pair : Text → Text → Json
token_pair access refresh =
    obj (field (codes "access") (str access) (field (codes "refresh") (str refresh) end))

abbrev customer_response : Request → Customer → Response
customer_response request c = data_response 200 (customer_representation c) request

-- a datetime is the number of its microseconds; the framework renders it
abbrev pub session_representation : Session → Json
session_representation s = obj (
    field (codes "id") (str (uuid_text s.id)) (
      field (codes "created_at") (num s.created_at)
        (field (codes "expires_at") (num s.expires_at) end)))

unfoldable pub session_items : List Session → Items
session_items [] = nil
session_items (s ∷ rest) = cons (session_representation s) (session_items rest)

-- `order_by("-created_at")`
unfoldable pub insert_newest : Session → List Session → List Session
insert_newest s [] = s ∷ []
insert_newest s (t ∷ rest) =
    let more = insert_newest s rest in
    if leb t.created_at s.created_at then s ∷ t ∷ rest else t ∷ more

unfoldable pub newest_first : List Session → List Session
newest_first [] = []
newest_first (s ∷ rest) = insert_newest s (newest_first rest)

-- `for s in sessions if s.is_active`: each test reads the clock
unfoldable pub active_sessions : List Session → Action (List Session)
unfolding session_is_active
active_sessions [] = pure []
active_sessions (s ∷ rest) = do
  at ← now
  more ← active_sessions rest
  pure (if session_is_active s at then s ∷ more else more)

-- `cast(Customer, request.user)` changes nothing: a `Staff` passes it. What raises is Python, when
-- a column is read that `Staff` has not (`is_email_verified`),
abbrev pub columns_of : Actor → Action Customer
columns_of (customer_actor c) = pure c
columns_of (staff_actor s) = raise (failure attribute_error)

-- or Django, when a query or a foreign key is given a row of another model.
abbrev pub row_of : Actor → Action Customer
row_of (customer_actor c) = pure c
row_of (staff_actor s) = raise (failure value_error)

-- the views behind `IsAuthenticated`, for the user of the request
unfoldable pub me : Request → Actor → Action Response
me request user = do c ← columns_of user; pure (customer_response request c)

unfoldable pub session_list : Request → Actor → Action Response
unfolding active_sessions
session_list request user = do
  c ← row_of user
  rows ← reads (λ db. filter_rows (is_open_session c.id) db.sessions)
  listed ← active_sessions (newest_first rows)
  pure (data_response 200 (arr (session_items listed)) request)

unfoldable pub session_revoke : ℕ → Request → Actor → Action Response
session_revoke session_id request user = do
  c ← row_of user
  revoke_session c session_id (some request.meta)
  pure (empty_response 204)

unfoldable pub session_revoke_all : Request → Actor → Action Response
session_revoke_all request user = do
  c ← row_of user
  revoke_all_sessions c
  pure (empty_response 204)

-- `Staff` has no column `preferred_locale` for `save(update_fields=…)` to write.
unfoldable pub save_preference : Text → Text → Actor → Action Customer
save_preference locale currency (customer_actor c) = update_locale_preference c locale currency
save_preference locale currency (staff_actor s) = do
  validate_locale_and_currency locale currency
  raise (failure value_error)

module _ (sv : Services) (fw : Framework) where
  -- The token's `customer` refuses a staff member, once the token is drawn.
  unfoldable pub change_email : Text → Actor → Action (Unit {0})
  change_email new_email (customer_actor c) = request_email_change sv c new_email
  change_email new_email (staff_actor s) = do
    taken ←
        reads (λ db. exists_row (is_taken_by_other s.id (normalize_email new_email)) db.customers)
    raise_if taken (accounts email_already_taken)
    generate_token sv
    now
    next_id
    raise (failure value_error)

  unfoldable pub update_locale_view : Request → Actor → Action Response
  unfolding save_preference
  update_locale_view request user = do
    form ← or_raise (locale_form fw request.body) validation
    c ← save_preference form.0 form.1 user
    pure (customer_response request c)

  unfoldable pub request_change_view : Request → Actor → Action Response
  unfolding change_email
  request_change_view request user = do
    new_email ← or_raise (email_change_form fw request.body) validation
    change_email new_email user
    pure (empty_response 202)

  -- the views that anybody may call
  unfoldable pub register_view : Request → Action Response
  register_view request = do
    valid ← reads (λ db. register_form fw db request.body)
    form ← or_raise valid validation
    result ← register_customer sv form.0 form.1
    pure (data_response 201 (customer_representation result.0) request)

  unfoldable pub verify_email_view : Request → Action Response
  verify_email_view request = do
    token ← or_raise (verify_email_form fw request.body) validation
    c ← verify_email sv token
    pure (customer_response request c)

  unfoldable pub login_view : Request → Action Response
  login_view request = do
    form ← or_raise (login_form fw request.body) validation
    result ← login_customer sv form.0 form.1
    pure (data_response 200 (token_pair result.1 result.2) request)

  unfoldable pub google_login_view : Request → Action Response
  google_login_view request = do
    id_token ← or_raise (google_login_form fw request.body) validation
    result ← login_with_google sv id_token
    pure (data_response 200 (token_pair result.1 result.2) request)

  unfoldable pub refresh_view : Request → Action Response
  refresh_view request = do
    refresh ← or_raise (refresh_token_form fw request.body) validation
    tokens ← rotate_refresh_token sv refresh
    pure (data_response 200 (token_pair tokens.0 tokens.1) request)

  unfoldable pub request_reset_view : Request → Action Response
  request_reset_view request = do
    email ← or_raise (request_reset_form fw request.body) validation
    request_password_reset sv email
    pure (empty_response 202)

  unfoldable pub confirm_reset_view : Request → Action Response
  confirm_reset_view request = do
    form ← or_raise (confirm_reset_form fw request.body) validation
    c ← confirm_password_reset sv form.0 form.1
    pure (customer_response request c)

  unfoldable pub confirm_change_view : Request → Action Response
  confirm_change_view request = do
    token ← or_raise (confirm_change_form fw request.body) validation
    c ← confirm_email_change sv token
    pure (customer_response request c)
