-- ===== src/Accounts/Api/Access.antt =====
-- Whom the accounts endpoints let in.
use be_py_eco.Common.Idempotency.{Response}
use be_py_eco.Prelude.{◌≡◌, refl, Bool, true, false, none, some, arith}
use be_py_eco.Errors.{Error, status_code, permission_refused}
use be_py_eco.Schema.{Customer}
use be_py_eco.World.{Action, World, err, Services}
use be_py_eco.Common.Authentication.{Actor, customer_actor}
use be_py_eco.Common.Http.{Framework, Request, staff_only}
use be_py_eco.Common.Http.Guards.{
  actor_of, refusal, refusal_status, authenticated-none, authenticated-some,
}
use be_py_eco.Accounts.Api.Routes.{
  Endpoint, View, open_view, user_view, staff_view, dispatch, view_of, handle,
}

abbrev pub is_open : View → Bool
is_open (open_view _) = true
is_open _ = false

abbrev pub is_for_staff : View → Bool
is_for_staff (staff_view _) = true
is_for_staff _ = false

pub dispatch_unauthenticated :
    (v : View) (request : Request) (w : World)
    → is_open v ≡ false
    → actor_of request.credentials w.db ≡ none
    → dispatch v request w ≡ (err (refusal request.credentials), w)
unfolding dispatch staff_only
dispatch_unauthenticated (open_view post) request w o h = absurd (ground arith)
dispatch_unauthenticated (user_view post) request w o h = rw (authenticated-none request w h) refl
dispatch_unauthenticated (staff_view post) request w o h = rw (authenticated-none request w h) refl

pub dispatch_customer :
    (v : View) (request : Request) (w : World) (c : Customer)
    → is_for_staff v ≡ true
    → actor_of request.credentials w.db ≡ some (customer_actor c)
    → dispatch v request w ≡ (err permission_refused, w)
unfolding dispatch staff_only
dispatch_customer (open_view post) request w c o h = absurd (ground arith)
dispatch_customer (user_view post) request w c o h = absurd (ground arith)
dispatch_customer (staff_view post) request w c o h =
    rw (authenticated-some request w (customer_actor c) h) refl

pub dispatch_user :
    (post : Request → Actor → Action Response) (request : Request) (w : World) (user : Actor)
    → actor_of request.credentials w.db ≡ some user
    → dispatch (user_view post) request w ≡ post request user w
unfolding dispatch
dispatch_user post request w user h = rw (authenticated-some request w user h) refl

module _ (sv : Services) (fw : Framework) (endpoint : Endpoint) (request : Request)
    (w : World) where
  -- An endpoint that is not open answers a request whose credentials stand for nobody with an
  -- error of status 401, and leaves the world as it is.
  handle_unauthenticated :
      is_open (view_of sv fw endpoint) ≡ false
      → actor_of request.credentials w.db ≡ none
      → (e : Error) × (handle sv fw endpoint request w ≡ (err e, w)) × (status_code e ≡ some 401)
  unfolding handle
  handle_unauthenticated closed h = (
    refusal request.credentials,
    dispatch_unauthenticated (view_of sv fw endpoint) request w closed h,
    refusal_status request.credentials,
  )

  -- An endpoint for staff refuses a customer, and leaves the world as it is.
  handle_customer_refused :
      (c : Customer)
      → is_for_staff (view_of sv fw endpoint) ≡ true
      → actor_of request.credentials w.db ≡ some (customer_actor c)
      → handle sv fw endpoint request w ≡ (err permission_refused, w)
  unfolding handle
  handle_customer_refused c staff h = dispatch_customer (view_of sv fw endpoint) request w c staff h
