-- ===== src/Common/Http/Guards.antt =====
-- Who passes the permission checks.
use be_py_eco.Prelude.{◌≡◌, refl, inl, inr, Option, none, some, arith, Option-cases}
use be_py_eco.Errors.{Error, status_code, not_authenticated, token_not_valid}
use be_py_eco.Schema.{Database, Staff}
use be_py_eco.World.{World, ok, err}
use be_py_eco.Common.Authentication.{Actor, customer_actor, staff_actor, get_user}
use be_py_eco.Common.Http.{
  Credentials, anonymous, bad_token, bearer, Request, authenticated, staff_only, authenticate,
}

-- the actor that credentials stand for
abbrev pub actor_of : Credentials → Database → Option Actor
actor_of anonymous db = none
actor_of bad_token db = none
actor_of (bearer actor_type actor_id) db = get_user actor_type actor_id db

abbrev pub refusal : Credentials → Error
refusal anonymous = not_authenticated
refusal _ = token_not_valid

authenticate-none :
    (c : Credentials) (request : Request) (w : World)
    → request.credentials ≡ c
    → actor_of c w.db ≡ none
    → authenticated request w ≡ (err (refusal c), w)
unfolding authenticated authenticate
authenticate-none anonymous request w e h = rw e refl
authenticate-none bad_token request w e h = rw e refl
authenticate-none (bearer t i) request w e h = rw (e, h) refl

authenticate-some :
    (c : Credentials) (request : Request) (w : World) (user : Actor)
    → request.credentials ≡ c
    → actor_of c w.db ≡ some user
    → authenticated request w ≡ (ok user, w)
unfolding authenticated authenticate
authenticate-some anonymous request w user e h = absurd (ground arith)
authenticate-some bad_token request w user e h = absurd (ground arith)
authenticate-some (bearer t i) request w user e h = rw (e, h) refl

pub refusal_status : (c : Credentials) → status_code (refusal c) ≡ some 401
unfolding status_code
refusal_status anonymous = refl
refusal_status bad_token = refl
refusal_status (bearer t i) = refl

module _ (request : Request) (w : World) where
  pub authenticated-none :
      actor_of request.credentials w.db ≡ none
      → authenticated request w ≡ (err (refusal request.credentials), w)
  authenticated-none h = authenticate-none request.credentials request w refl h

  pub authenticated-some :
      (user : Actor)
      → actor_of request.credentials w.db ≡ some user
      → authenticated request w ≡ (ok user, w)
  authenticated-some user h = authenticate-some request.credentials request w user refl h

  -- the checks let only an active staff member through, and do not change the world
  pub staff_only-ok :
      (s : Staff)
      → (staff_only request w).0 ≡ ok s
      → (actor_of request.credentials w.db ≡ some (staff_actor s))
        × (staff_only request w ≡ (ok s, w))
  unfolding staff_only
  staff_only-ok s h = elim (Option-cases (actor_of request.credentials w.db)) [
    | inl e ↦ absurd (ground (arith, authenticated-none e))
    | inr (customer_actor c, e) ↦ absurd (ground (arith, authenticated-some (customer_actor c) e))
    | inr (staff_actor t, e) ↦ (
      ground (arith, authenticated-some (staff_actor t) e),
      ground (arith, authenticated-some (staff_actor t) e),
    )
  ]
