-- ===== src/Common/RequestId.antt =====
-- src/common/observability/middleware.py; `uuid.UUID(value)` is a parameter.
pub mod Echo
use be_py_eco.Prelude.{ℕ, Option, none, some, if◌then◌else◌, Text, is_empty}
use be_py_eco.World.{Action, pure, next_id, ◌>>=◌, ◌>>◌}
use be_py_eco.Common.Render.{uuid_text}
use be_py_eco.Common.RequestContext.{RequestMeta}

-- `uuid.UUID(value)`, `none` for a `ValueError`
pub record UuidParser : Type 0 where
  pub parse_uuid : Text → Option ℕ

abbrev pub id_or_new : Option ℕ → Action ℕ
id_or_new none = next_id
id_or_new (some id) = pure id

module _ (up : UuidParser) where
  open up use {parse_uuid}

  -- `_parse(incoming) if incoming else uuid7()`
  unfoldable pub choose_request_id : Option Text → Action ℕ
  choose_request_id none = next_id
  choose_request_id (some incoming) =
      if is_empty incoming then next_id else id_or_new (parse_uuid incoming)

  -- `__call__`: the response with its header `X-Request-ID`
  unfoldable pub call_middleware :
      {A : Type 0}
      → Option Text
      → Option Text
      → Option Text
      → (RequestMeta → Action A)
      → Action (A × Text)
  unfolding choose_request_id
  call_middleware incoming remote_addr x_forwarded_for get_response = do
    id ← choose_request_id incoming
    response ← get_response (record {
      remote_addr = remote_addr;
      x_forwarded_for = x_forwarded_for;
      id = some (uuid_text id);
    })
    pure (response, uuid_text id)
