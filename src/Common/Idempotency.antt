-- ===== src/Common/Idempotency.antt =====
-- src/common/db/idempotency.py and src/common/api/idempotency.py
pub mod Replay
pub mod RunOnce
use be_py_eco.Prelude.{
  ℕ, ◌+◌, ◌*◌, Bool, not, ◌&&◌, Option, none, some, ltb, ◌==◌, Text, eq_text, is_empty, filter_rows,
  delete_rows,
}
use be_py_eco.Errors.{idempotency, idempotency_key_required, idempotency_key_conflict}
use be_py_eco.Schema.{Database, Json, IdempotencyRecord}
use be_py_eco.World.{
  branch, Action, pure, raise, reads, maybe_row, raise_if, modify, now, next_id, Services,
  create_idempotency_record, ◌>>=◌, ◌>>◌,
}
use be_py_eco.Common.Render.{dumps}

-- seven days, in microseconds
abbrev pub idempotency_record_ttl : ℕ
idempotency_record_ttl = 7 * 24 * 3600000000

-- who does what under which key
pub record KeyScope : Type 0 where
  pub actor_type : Text
  pub actor_id : Text
  pub action : Text
  pub idempotency_key : Text

abbrev pub in_scope : KeyScope → IdempotencyRecord → Bool
in_scope k r =
    eq_text r.actor_type k.actor_type
    && eq_text r.actor_id k.actor_id
    && eq_text r.action k.action
    && eq_text r.idempotency_key k.idempotency_key

-- a DRF `Response`: the status and the body
pub record Response : Type 0 where
  pub status : ℕ
  pub body : Json

abbrev pub delete_record : IdempotencyRecord → Database → Database
delete_record r db = record db {
  idempotency_records = delete_rows (λ x. x.id == r.id) db.idempotency_records;
}

module _ (sv : Services) where
  open sv use {sha256_hex}

  -- `_hash_request`
  unfoldable pub hash_request : Json → Text
  hash_request request_data = sha256_hex (dumps request_data)

  -- what a record found under the key means for the request
  unfoldable pub judge_record : Json → Option IdempotencyRecord → Action (Option Response)
  judge_record request_data none = pure none
  judge_record request_data (some r) = do
    at ← now
    branch (ltb r.expires_at at) (do modify (delete_record r); pure none)
        (do
          raise_if (not (eq_text r.request_hash (hash_request request_data)))
              (idempotency idempotency_key_conflict)
          pure (some (record { status = r.response_status; body = r.response_body })))

  unfoldable pub get_cached_response : KeyScope → Json → Action (Option Response)
  unfolding judge_record
  get_cached_response scope request_data = do
    rows ← reads (λ db. filter_rows (in_scope scope) db.idempotency_records)
    found ← maybe_row rows
    judge_record request_data found

  unfoldable pub store_response : KeyScope → Json → Response → Action (Unit {0})
  unfolding create_idempotency_record
  store_response scope request_data response = do
    at ← now
    id ← next_id
    create_idempotency_record (record {
      id = id;
      actor_type = scope.actor_type;
      actor_id = scope.actor_id;
      action = scope.action;
      idempotency_key = scope.idempotency_key;
      request_hash = hash_request request_data;
      response_status = response.status;
      response_body = response.body;
      expires_at = at + idempotency_record_ttl;
    })
    pure tt

  unfoldable pub replay_or_run :
      KeyScope → Json → Action Response → Option Response → Action Response
  replay_or_run scope request_data handler (some response) = pure response
  replay_or_run scope request_data handler none = do
    response ← handler
    store_response scope request_data response
    pure response

  -- The frame of a sensitive view: a cached response is replayed, otherwise the handler runs and
  -- its response is remembered.
  unfoldable pub run_once : KeyScope → Json → Action Response → Action Response
  unfolding replay_or_run
  run_once scope request_data handler = do
    cached ← get_cached_response scope request_data
    replay_or_run scope request_data handler cached

-- `require_idempotency_key`: a missing or empty header
unfoldable pub require_idempotency_key : Option Text → Action Text
require_idempotency_key none = raise (idempotency idempotency_key_required)
require_idempotency_key (some key) = do
  raise_if (is_empty key) (idempotency idempotency_key_required)
  pure key
