-- ===== src/Catalog/Api/Access.antt =====
-- Whom the storefront's catalog answers.
use be_py_eco.Prelude.{
  ℕ, ◌≡◌, refl, inl, inr, Bool, true, false, not, Option, none, some, arith, if◌then◌else◌, is_some,
  Bool-cases, Option-cases, Text,
}
use be_py_eco.Errors.{token_not_valid}
use be_py_eco.World.{World, Result, ok, err}
use be_py_eco.Common.Http.{
  Credentials, anonymous, bad_token, bearer, Request, authenticate, data_response,
}
use be_py_eco.Common.Authentication.{Actor, get_user}
use be_py_eco.Common.Http.Guards.{actor_of}
use be_py_eco.Catalog.Api.{Response, product_list_get, product_detail_get}

-- credentials that are there, and stand for nobody
abbrev pub is_stale : Credentials → World → Bool
is_stale anonymous w = false
is_stale c w = not (is_some (actor_of c w.db))

authenticate-stale :
    (c : Credentials) (w : World)
    → is_stale c w ≡ true
    → authenticate c w ≡ (err token_not_valid, w)
unfolding authenticate
authenticate-stale anonymous w h = absurd (ground arith)
authenticate-stale bad_token w h = refl
authenticate-stale (bearer t i) w h = ground arith

authenticate-other :
    (c : Credentials) (w : World)
    → is_stale c w ≡ false
    → (user : Option Actor) × (authenticate c w ≡ (ok user, w))
unfolding authenticate
authenticate-other anonymous w h = (none, refl)
authenticate-other bad_token w h = absurd (ground arith)
authenticate-other (bearer t i) w h = elim (Option-cases (get_user t i w.db)) [
  | inl e ↦ absurd (ground arith)
  | inr (a, e) ↦ (some a, rw e refl)
]

-- Who asks makes no difference to the list and the page of a product, except that credentials that
-- stand for nobody, such as an expired token or that of a disabled customer, are refused with
-- token_not_valid where a request without credentials is answered.
pub storefront_credentials :
    (product_id : ℕ) (accept_language : Text) (request : Request) (w : World)
    → let nobody = record request { credentials = anonymous } in
      let refused = λ (answer : Result (Response × Text) × World).
        if is_stale request.credentials w then (err token_not_valid, w) else answer in
      (product_list_get accept_language request w
        ≡ refused (product_list_get accept_language nobody w))
      × (product_detail_get product_id accept_language request w
          ≡ refused (product_detail_get product_id accept_language nobody w))
unfolding product_list_get product_detail_get data_response
storefront_credentials product_id accept_language request w =
    elim (Bool-cases (is_stale request.credentials w)) [
      | inl stale ↦ rw (stale, authenticate-stale request.credentials w stale) (refl, refl)
      | inr other ↦
          let (user, known) = authenticate-other request.credentials w other in
          let (nobody, unknown) = authenticate-other anonymous w refl in
          rw (other, known, unknown) (refl, refl)
    ]
