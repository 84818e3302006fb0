-- ===== src/Common/Idempotency/RunOnce.antt =====
-- What the frame of a sensitive view promises of a repeated request.
use be_py_eco.Prelude.{
  ◌+◌, ◌≤◌, ◌≡◌, refl, false, none, some, [], arith, eq_text, eq_text_refl, filter_rows, exists_row,
}
use be_py_eco.Errors.{Error, idempotency, idempotency_key_conflict}
use be_py_eco.Schema.{Json}
use be_py_eco.World.{Action, World, ok, err, Services}
use be_py_eco.Prelude.Queries.{filter-none}
use be_py_eco.Common.Idempotency.{
  idempotency_record_ttl, KeyScope, in_scope, Response, hash_request, get_cached_response,
  store_response, run_once,
}
use be_py_eco.Common.Idempotency.Replay.{store-then-get}

module _ (sv : Services) (scope : KeyScope) where
  run_once-cached :
      (body : Json) (handler : Action Response) (w : World) (r : Response)
      → (get_cached_response sv scope body w).0 ≡ ok (some r)
      → run_once sv scope body handler w ≡ (ok r, (get_cached_response sv scope body w).1)
  unfolding run_once
  run_once-cached body handler w r h = ground arith

  run_once-refused :
      (body : Json) (handler : Action Response) (w : World) (e : Error)
      → (get_cached_response sv scope body w).0 ≡ err e
      → run_once sv scope body handler w ≡ (err e, (get_cached_response sv scope body w).1)
  unfolding run_once
  run_once-refused body handler w e h = ground arith

  get_cached_response-db :
      (body : Json) (w : World) (r : Response)
      → (get_cached_response sv scope body w).0 ≡ ok (some r)
      → (get_cached_response sv scope body w).1.db ≡ w.db
  unfolding get_cached_response
  get_cached_response-db body w r h = ground arith

  get_cached_response-missing :
      (body : Json) (w : World)
      → filter_rows (in_scope scope) w.db.idempotency_records ≡ []
      → get_cached_response sv scope body w ≡ (ok none, w)
  unfolding get_cached_response
  get_cached_response-missing body w h = ground arith

  -- the parts of a first run that ends well: the handler's answer, stored
  pub run_once-first :
      (body : Json) (handler : Action Response) (w : World) (r : Response)
      → filter_rows (in_scope scope) w.db.idempotency_records ≡ []
      → (run_once sv scope body handler w).0 ≡ ok r
      → ((handler w).0 ≡ ok r)
        × ((store_response sv scope body r (handler w).1).0 ≡ ok tt)
        × ((run_once sv scope body handler w).1 ≡ (store_response sv scope body r (handler w).1).1)
  unfolding run_once
  run_once-first body handler w r none_before h =
      ground (arith, get_cached_response-missing body w none_before)

  -- A request that was answered under a key that had no record, by a handler that leaves the
  -- records alone, is answered alike when it is repeated with the same key and body while its
  -- record lives; the database stays as it is, whatever the handler of the repetition does.
  pub run_once_replays :
      (body : Json) (handler again : Action Response) (w w' : World) (r : Response)
      → exists_row (in_scope scope) w.db.idempotency_records ≡ false
      → (handler w).1.db.idempotency_records ≡ w.db.idempotency_records
      → (run_once sv scope body handler w).0 ≡ ok r
      → w'.db ≡ (run_once sv scope body handler w).1.db
      → w'.clock 0 ≤ (handler w).1.clock 0 + idempotency_record_ttl
      → ((run_once sv scope body again w').0 ≡ ok r)
        × ((run_once sv scope body again w').1.db ≡ w'.db)
  run_once_replays body handler again w w' r none_before kept h same fresh =
      let first = run_once-first body handler w r (filter-none (in_scope scope) _ none_before) h in
      let cached : (get_cached_response sv scope body w').0 ≡ ok (some r) =
        rw
          (
            store-then-get sv scope body body r (handler w).1 w' (rw kept none_before) first.1
                (rw (same, first.2) refl) fresh,
            eq_text_refl (hash_request sv body),
          )
          refl in
      (
        rw (run_once-cached body again w' r cached) refl,
        rw (run_once-cached body again w' r cached) (get_cached_response-db body w' r cached),
      )

  -- After a request was answered under a key that had no record, by a handler that leaves the
  -- records alone, the same key with a body of another hash is refused while the record lives.
  pub run_once_conflict :
      (body other : Json) (handler again : Action Response) (w w' : World) (r : Response)
      → exists_row (in_scope scope) w.db.idempotency_records ≡ false
      → (handler w).1.db.idempotency_records ≡ w.db.idempotency_records
      → (run_once sv scope body handler w).0 ≡ ok r
      → w'.db ≡ (run_once sv scope body handler w).1.db
      → w'.clock 0 ≤ (handler w).1.clock 0 + idempotency_record_ttl
      → eq_text (hash_request sv body) (hash_request sv other) ≡ false
      → (run_once sv scope other again w').0 ≡ err (idempotency idempotency_key_conflict)
  run_once_conflict body other handler again w w' r none_before kept h same fresh differ =
      let first = run_once-first body handler w r (filter-none (in_scope scope) _ none_before) h in
      let refused : (get_cached_response sv scope other w').0
          ≡ err (idempotency idempotency_key_conflict) =
        rw
          (
            store-then-get sv scope body other r (handler w).1 w' (rw kept none_before) first.1
                (rw (same, first.2) refl) fresh,
            differ,
          )
          refl in
      rw (run_once-refused other again w' _ refused) refl
