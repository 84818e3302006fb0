-- ===== src/Common/Idempotency/Replay.antt =====
-- What a repeated request gets.
use be_py_eco.Prelude.{
  ◌+◌, ◌≤◌, ◌≡◌, true, false, some, [], ◌∷◌, ◌++◌, arith, if◌then◌else◌, eq_text, eq_text_refl,
  filter_rows, exists_row,
}
use be_py_eco.Prelude.Queries.{filter-append, filter-none}
use be_py_eco.Errors.{idempotency, idempotency_key_conflict}
use be_py_eco.Schema.{Json, IdempotencyRecord}
use be_py_eco.World.{World, ok, err, Services}
use be_py_eco.Common.Idempotency.{
  KeyScope, Response, in_scope, idempotency_record_ttl, hash_request, get_cached_response,
  store_response,
}

module _ (sv : Services) (scope : KeyScope) where
  -- the one record under a key answers the request
  pub get_cached_response-record :
      (body : Json) (w : World) (r : IdempotencyRecord)
      → filter_rows (in_scope scope) w.db.idempotency_records ≡ r ∷ []
      → w.clock 0 ≤ r.expires_at
      → (get_cached_response sv scope body w).0 ≡ (
          if eq_text r.request_hash (hash_request sv body)
          then ok (some (record { status = r.response_status; body = r.response_body }))
          else err (idempotency idempotency_key_conflict))
  unfolding get_cached_response
  get_cached_response-record body w r e fresh = ground arith

  stored : Json → Response → World → IdempotencyRecord
  stored body response w = record {
    id = w.ids 0;
    actor_type = scope.actor_type;
    actor_id = scope.actor_id;
    action = scope.action;
    idempotency_key = scope.idempotency_key;
    request_hash = hash_request sv body;
    response_status = response.status;
    response_body = response.body;
    expires_at = w.clock 0 + idempotency_record_ttl;
  }

  store_response-rows :
      (body : Json) (response : Response) (w : World)
      → (store_response sv scope body response w).0 ≡ ok tt
      → (store_response sv scope body response w).1.db.idempotency_records
        ≡ w.db.idempotency_records ++ stored body response w ∷ []
  unfolding store_response stored
  store_response-rows body response w h = ground arith

  in_scope-stored :
      (body : Json) (response : Response) (w : World)
      → in_scope scope (stored body response w) ≡ true
  unfolding stored
  in_scope-stored body response w = ground (
    arith,
    eq_text_refl scope.actor_type,
    eq_text_refl scope.actor_id,
    eq_text_refl scope.action,
    eq_text_refl scope.idempotency_key,
  )

  -- After a response was stored under a key that had no record, and until its time is over, the
  -- same body gets the stored response back, and a body with another hash is refused.
  pub store-then-get :
      (body body' : Json) (response : Response) (w w' : World)
      → exists_row (in_scope scope) w.db.idempotency_records ≡ false
      → (store_response sv scope body response w).0 ≡ ok tt
      → w'.db.idempotency_records
        ≡ (store_response sv scope body response w).1.db.idempotency_records
      → w'.clock 0 ≤ w.clock 0 + idempotency_record_ttl
      → (get_cached_response sv scope body' w').0 ≡ (
          if eq_text (hash_request sv body) (hash_request sv body')
          then ok (some response)
          else err (idempotency idempotency_key_conflict))
  unfolding stored
  store-then-get body body' response w w' none_before h same fresh =
      let rows : filter_rows (in_scope scope) w'.db.idempotency_records
          ≡ stored body response w ∷ [] =
        rw
          (
            same,
            store_response-rows body response w h,
            filter-append,
            filter-none (in_scope scope) w.db.idempotency_records none_before,
          )
          (unfold filter_rows in rw (in_scope-stored body response w)) in
      get_cached_response-record body' w' (stored body response w) rows fresh
