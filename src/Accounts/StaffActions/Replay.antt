-- ===== src/Accounts/StaffActions/Replay.antt =====
-- What a staff member gets who repeats a sensitive request under the same key.
use be_py_eco.Common.Idempotency.RunOnce.{run_once_replays, run_once-first}
use be_py_eco.Prelude.{
  ℕ, ◌+◌, ◌≤◌, ◌≡◌, sym, true, false, Option, some, arith, Text, is_empty, exists_row,
}
use be_py_eco.Schema.{Json, Staff}
use be_py_eco.World.{World, Action, ok, Services}
use be_py_eco.Prelude.Queries.{filter-none, missing, one, many, Found-cases}
use be_py_eco.Common.Http.{Request}
use be_py_eco.Common.Idempotency.{
  idempotency_record_ttl, in_scope, store_response, KeyScope, Response, run_once,
}
use be_py_eco.Common.Permissions.{role_allows}
use be_py_eco.Accounts.Mfa.{has_confirmed_mfa}
use be_py_eco.Accounts.Tokens.{customer_by_id}
use be_py_eco.Accounts.StaffActions.{
  disable_customer_codename, disable_customer_view, disable_customer, disable_handler, key_scope,
  sensitive_view,
}

disable_customer-records :
    (actor : Staff) (id : ℕ) (reason_of : Json → Option Text) (request : Request) (w : World)
    → ((disable_handler reason_of actor id request w).1.db.idempotency_records
        ≡ w.db.idempotency_records)
      × (has_confirmed_mfa actor (disable_handler reason_of actor id request w).1.db
          ≡ has_confirmed_mfa actor w.db)
unfolding disable_customer has_confirmed_mfa
disable_customer-records actor id reason_of request w =
    elim (Found-cases (customer_by_id id w.db)) [
      | missing m ↦ (ground arith, ground arith)
      | one c p ↦ (ground arith, ground arith)
      | many a b rest p ↦ (ground arith, ground arith)
    ]

module _ (sv : Services) (codename key : Text) (actor : Staff) (request : Request)
    (given : request.idempotency_key ≡ some key) where
  -- a view that answers has run the frame of the idempotency keys
  sensitive_view-run :
      (handler : Action Response) (w : World) (r : Response)
      → (sensitive_view sv codename actor request handler w).0 ≡ ok r
      → (role_allows actor.role codename ≡ true)
        × (has_confirmed_mfa actor w.db ≡ true)
        × (is_empty key ≡ false)
  unfolding sensitive_view
  sensitive_view-run handler w r h = (ground arith, ground arith, ground arith)

  sensitive_view-allowed :
      (handler : Action Response) (w : World)
      → role_allows actor.role codename ≡ true
      → has_confirmed_mfa actor w.db ≡ true
      → is_empty key ≡ false
      → sensitive_view sv codename actor request handler w
        ≡ run_once sv (key_scope codename actor key) request.body handler w
  unfolding sensitive_view
  sensitive_view-allowed handler w allowed confirmed filled = ground arith

store_response-confirmed :
    (sv : Services) (scope : KeyScope) (actor : Staff) (body : Json) (r : Response) (w : World)
    → has_confirmed_mfa actor (store_response sv scope body r w).1.db ≡ has_confirmed_mfa actor w.db
unfolding store_response has_confirmed_mfa
store_response-confirmed sv scope actor body r w = ground arith

module _ (sv : Services) (key : Text) (actor : Staff) (request : Request)
    (given : request.idempotency_key ≡ some key) where
  -- Once a request to disable one customer was answered under a key without a record, the same
  -- request for any other customer gets the same answer while the record lives, and the database
  -- stays as it is: the other customer is not disabled.
  pub disable_customer_replayed :
      (reason_of : Json → Option Text) (first other : ℕ) (w w' : World) (r : Response)
      → exists_row
          (in_scope (key_scope disable_customer_codename actor key))
          w.db.idempotency_records
        ≡ false
      → (disable_customer_view sv reason_of actor first request w).0 ≡ ok r
      → w'.db ≡ (disable_customer_view sv reason_of actor first request w).1.db
      → w'.clock 0
        ≤ (disable_handler reason_of actor first request w).1.clock 0 + idempotency_record_ttl
      → ((disable_customer_view sv reason_of actor other request w').0 ≡ ok r)
        × ((disable_customer_view sv reason_of actor other request w').1.db ≡ w'.db)
  unfolding disable_customer_view
  disable_customer_replayed reason_of first other w w' r none_before h same fresh =
      let scope = key_scope disable_customer_codename actor key in
      let one = disable_handler reason_of actor first request in
      let two = disable_handler reason_of actor other request in
      let (allowed, confirmed, filled) =
        sensitive_view-run sv disable_customer_codename key actor request given one w r h in
      let run : sensitive_view sv disable_customer_codename actor request one w
          ≡ run_once sv scope request.body one w =
        sensitive_view-allowed sv disable_customer_codename key actor request given one w allowed
          confirmed filled in
      let answered : (run_once sv scope request.body one w).0 ≡ ok r = rw (sym run) h in
      let kept = disable_customer-records actor first reason_of request w in
      let after : w'.db ≡ (run_once sv scope request.body one w).1.db = rw (sym run) same in
      let stored =
        run_once-first sv scope request.body one w r (filter-none (in_scope scope) _ none_before)
          answered in
      let still : has_confirmed_mfa actor w'.db ≡ true =
        rw
          (
            after,
            stored.2,
            store_response-confirmed sv scope actor request.body r (one w).1,
            kept.1,
          )
          confirmed in
      rw
        (sensitive_view-allowed sv disable_customer_codename key actor request given two w' allowed
          still filled)
        (run_once_replays sv scope request.body one two w w' r none_before kept.0 answered after
          fresh)
