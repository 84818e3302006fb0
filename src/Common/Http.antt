-- ===== src/Common/Http.antt =====
-- What a view reads of a request and answers: the body fields that a serializer validates
-- (Django REST framework's fields are parameters), the authentication and the permission checks
-- that come before the handler, and src/common/api/envelope.py.
pub mod Guards
use be_py_eco.Prelude.{
  ℕ, ◌≤◌, ◌≡◌, Bool, true, false, Option, none, some, List, if◌then◌else◌, Text, codes, is_empty,
  in_texts,
}
use be_py_eco.Errors.{token_not_valid, not_authenticated, permission_refused}
use be_py_eco.Schema.{Staff, Json, null, str, obj, Fields, end, field}
use be_py_eco.World.{Action, pure, raise, reads, or_raise, ◌>>=◌, ◌>>◌}
use be_py_eco.Common.Authentication.{Actor, customer_actor, staff_actor, get_user}
use be_py_eco.Common.Idempotency.{Response}
use be_py_eco.Common.Problem.{get_key}
use be_py_eco.Common.RequestContext.{RequestMeta, request_id}

-- `Authorization: Bearer …` as simplejwt reads it: no such header, a token that it refuses, or an
-- access token with its `actor_type` and its `user_id`; a header of another shape, which it refuses
-- with 401 and another code, is left out
pub data Credentials : Type 0 where
  anonymous bad_token : Credentials
  bearer : Option Text → ℕ → Credentials

pub record Request : Type 0 where
  pub meta : RequestMeta
  pub credentials : Credentials
  pub idempotency_key : Option Text
  pub body : Json

-- The validation of the serializers' fields: `none` is a `ValidationError`. `CharField` takes
-- whether it trims.
pub record Framework : Type 0 where
  pub char_field : Bool → Json → Option Text
  pub char_field_filled :
      (trim : Bool) (j : Json) (s : Text) → char_field trim j ≡ some s → is_empty s ≡ false
  pub email_field : Json → Option Text
  pub choice_field : List Text → Json → Option Text
  pub choice_field_chosen :
      (choices : List Text) (j : Json) (s : Text)
      → choice_field choices j ≡ some s
      → in_texts s choices ≡ true
  -- `IntegerField(min_value=…, max_value=…)`
  pub integer_field : ℕ → ℕ → Json → Option ℕ
  pub integer_field_bounds :
      (low high : ℕ) (j : Json) (n : ℕ) → integer_field low high j ≡ some n → (low ≤ n) × (n ≤ high)
  -- `validate_password` raises nothing
  pub password_is_valid : Text → Bool
  -- `str(value)` of a value of a request's body
  pub str_of : Json → Text
  pub str_of_text : (s : Text) → str_of (str s) ≡ s
  -- `base64.b32encode(unhexlify(key)).decode()`
  pub b32encode_hex : Text → Text

-- a field of a serializer: required, and validated by `f`
unfoldable pub required : {A : Type 0} → Text → (Json → Option A) → Json → Option A
required name f (obj fs) = elim (get_key name fs) [ none ↦ none | some j ↦ f j ]
required name f _ = none

-- two fields are both validated
abbrev pub both : {A B : Type 0} → Option A → Option B → Option (A × B)
both (some a) (some b) = some (a, b)
both _ _ = none

abbrev pub only_if : {A : Type 0} → (A → Bool) → Option A → Option A
only_if p none = none
only_if p (some a) = if p a then some a else none

-- `perform_authentication`
unfoldable pub authenticate : Credentials → Action (Option Actor)
authenticate anonymous = pure none
authenticate bad_token = raise token_not_valid
authenticate (bearer actor_type actor_id) = do
  found ← reads (get_user actor_type actor_id)
  actor ← or_raise found token_not_valid
  pure (some actor)

-- `permission_classes = [IsAuthenticated]`
unfoldable pub authenticated : Request → Action Actor
unfolding authenticate
authenticated request = do user ← authenticate request.credentials; or_raise user not_authenticated

-- `IsStaff.has_permission`
abbrev pub is_staff : Actor → Action Staff
is_staff (staff_actor s) = pure s
is_staff (customer_actor c) = raise permission_refused

-- `permission_classes = [IsAuthenticated, IsStaff]`
unfoldable pub staff_only : Request → Action Staff
unfolding authenticated
staff_only request = do actor ← authenticated request; is_staff actor

-- `meta`, with its pagination when there is one
abbrev envelope_meta : Text → Option Json → Fields
envelope_meta id none = field (codes "request_id") (str id) end
envelope_meta id (some pagination) =
    field (codes "request_id") (str id) (field (codes "pagination") pagination end)

unfoldable pub success_envelope : Json → Option RequestMeta → Option Json → Json
success_envelope body request pagination = obj (
    field (codes "data") body
      (field (codes "meta") (obj (envelope_meta (request_id request) pagination)) end))

-- `Response(status=…)` with no body
abbrev pub empty_response : ℕ → Response
empty_response status = record { status = status; body = null }

-- `Response(success_envelope(data, request=request), status=…)`
unfoldable pub data_response : ℕ → Json → Request → Response
unfolding success_envelope
data_response status body request = record {
  status = status;
  body = success_envelope body (some request.meta) none;
}
