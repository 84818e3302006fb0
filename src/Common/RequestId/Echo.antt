-- ===== src/Common/RequestId/Echo.antt =====
-- The correlation id of a request.
use be_py_eco.Prelude.{ℕ, ◌≡◌, refl, false, Option, some, Text, is_empty}
use be_py_eco.World.{World, Action, ok}
use be_py_eco.Common.Render.{uuid_text}
use be_py_eco.Common.RequestContext.{RequestMeta}
use be_py_eco.Common.RequestId.{UuidParser, choose_request_id, call_middleware}

not_empty : (n : ℕ) → is_empty (uuid_text n) ≡ false
unfolding uuid_text
not_empty n = refl

abbrev pub meta_of : ℕ → Option Text → Option Text → RequestMeta
meta_of n remote_addr x_forwarded_for = record {
  remote_addr = remote_addr;
  x_forwarded_for = x_forwarded_for;
  id = some (uuid_text n);
}

-- A request that brings the text of a UUID, which is read back, in its header is handled under this id, and the id is echoed in the
-- response's header; the world is the one that the handler leaves.
pub call_middleware-echo :
    (up : UuidParser) {A : Type 0} (n : ℕ) (remote_addr x_forwarded_for : Option Text)
    (get_response : RequestMeta → Action A) (response : A) (w : World)
    → up.parse_uuid (uuid_text n) ≡ some n
    → (get_response (meta_of n remote_addr x_forwarded_for) w).0 ≡ ok response
    → (call_middleware up (some (uuid_text n)) remote_addr x_forwarded_for get_response w)
      ≡ (ok (response, uuid_text n), (get_response (meta_of n remote_addr x_forwarded_for) w).1)
unfolding call_middleware choose_request_id
call_middleware-echo up n remote_addr x_forwarded_for get_response response w read h =
    rw (not_empty n, read, h) refl

-- A handler that answers under the chosen id.
pub call_middleware-answered :
    (up : UuidParser) {A : Type 0} (given remote_addr x_forwarded_for : Option Text)
    (get_response : RequestMeta → Action A) (n : ℕ) (response : A) (w v u : World)
    → choose_request_id up given w ≡ (ok n, v)
    → get_response (meta_of n remote_addr x_forwarded_for) v ≡ (ok response, u)
    → call_middleware up given remote_addr x_forwarded_for get_response w
      ≡ (ok (response, uuid_text n), u)
unfolding call_middleware
call_middleware-answered up given remote_addr x_forwarded_for get_response n response w v u c a =
    rw c (rw a refl)
