-- ===== src/Common/Throttling.antt =====
-- src/common/api/throttling.py: what a request to a sign-in endpoint counts for. The counting is
-- the framework's.
pub mod Account
use be_py_eco.Prelude.{
  ℕ, Option, none, some, List, [], ◌∷◌, ◌++◌, if◌then◌else◌, Text, codes, is_empty, strip, lower,
}
use be_py_eco.Schema.{Json, obj}
use be_py_eco.Errors.{throttled}
use be_py_eco.World.{Action, pure, raise}
use be_py_eco.Common.Authentication.{Actor, customer_actor, staff_actor}
use be_py_eco.Common.Render.{uuid_text}
use be_py_eco.Common.RequestContext.{RequestMeta}
use be_py_eco.Common.Http.{Framework, Request}
use be_py_eco.Common.Problem.{get_key}

abbrev pub auth_account_scope : Text
auth_account_scope = codes "auth_account"

-- `cache_format % {"scope": …, "ident": …}`: "throttle_%(scope)s_%(ident)s"
abbrev pub cache_key : Text → Text → Text
cache_key scope ident = codes "throttle_" ++ (scope ++ (codes "_" ++ ident))

-- `str(data.get("email", ""))`; what is no mapping has no members
unfoldable pub email_text : Framework → Json → Text
email_text fw (obj fs) = elim (get_key (codes "email") fs) [ none ↦ [] | some j ↦ fw.str_of j ]
email_text fw _ = []

-- `AuthAccountRateThrottle.get_cache_key`
unfoldable pub get_cache_key : Framework → Json → Option Text
unfolding email_text
get_cache_key fw body =
    let email = lower (strip (email_text fw body)) in
    if is_empty email then none else some (cache_key auth_account_scope email)

-- `AuthIPRateThrottle`, `AuthAccountRateThrottle` and `AuthUserRateThrottle`
pub data Throttle : Type 0 where
  ip_throttle account_throttle user_throttle : Throttle

-- the class attribute `scope`
abbrev pub throttle_scope : Throttle → Text
throttle_scope ip_throttle = codes "auth_ip"
throttle_scope account_throttle = auth_account_scope
throttle_scope user_throttle = codes "auth_account"

abbrev actor_id : Actor → ℕ
actor_id (customer_actor c) = c.id
actor_id (staff_actor s) = s.id

-- The framework's `AnonRateThrottle` counts visitors, by their address; its `UserRateThrottle`
-- counts users by their primary key, and visitors by their address.
unfoldable pub throttle_key :
    Framework → (RequestMeta → Text) → Throttle → Request → Option Actor → Option Text
unfolding get_cache_key
throttle_key fw get_ident ip_throttle request none =
    some (cache_key (throttle_scope ip_throttle) (get_ident request.meta))
throttle_key fw get_ident ip_throttle request (some user) = none
throttle_key fw get_ident account_throttle request user = get_cache_key fw request.body
throttle_key fw get_ident user_throttle request none =
    some (cache_key (throttle_scope user_throttle) (get_ident request.meta))
throttle_key fw get_ident user_throttle request (some user) =
    some (cache_key (throttle_scope user_throttle) (uuid_text (actor_id user)))

abbrev add_key : Option Text → List Text → List Text
add_key none keys = keys
add_key (some key) keys = key ∷ keys

-- the keys that a request counts for under the throttles of its view; without a key a throttle
-- lets the request pass
unfoldable pub throttle_keys :
    Framework → (RequestMeta → Text) → List Throttle → Request → Option Actor → List Text
unfolding throttle_key
throttle_keys fw get_ident [] request user = []
throttle_keys fw get_ident (t ∷ ts) request user =
    add_key (throttle_key fw get_ident t request user) (throttle_keys fw get_ident ts request user)

abbrev pub verdict : Option (Option ℕ) → Action (Unit {0})
verdict none = pure tt
verdict (some wait) = raise (throttled wait)

-- `check_throttles`: `refused` is the framework's verdict on the keys, with the seconds to wait
unfoldable pub check_throttles : (List Text → Option (Option ℕ)) → List Text → Action (Unit {0})
check_throttles refused keys = verdict (refused keys)
