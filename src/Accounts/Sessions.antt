-- ===== src/Accounts/Sessions.antt =====
-- src/modules/accounts/services/sessions.py
pub mod Rotation
pub mod Revocation
pub mod Race
use be_py_eco.Prelude.{
  ◌/◌, ℕ, ◌+◌, Bool, false, not, ◌&&◌, Option, none, some, [], ◌==◌, Text, codes, eq_text,
  filter_rows, exists_row, update_rows,
}
use be_py_eco.Config.Settings.{refresh_token_lifetime}
use be_py_eco.Errors.{accounts, invalid_refresh_token, session_not_found}
use be_py_eco.Schema.{
  Database, Customer, Session, session_is_active, is_null, null, str, end, field,
}
use be_py_eco.World.{
  Action, pure, reads, the_row, or_raise, raise_if, modify, now, next_id, next_token, Services,
  Claims, create_session, ◌>>=◌, ◌>>◌,
}
use be_py_eco.Common.RequestContext.{RequestMeta, client_ip, request_id}
use be_py_eco.Common.Render.{uuid_text}
use be_py_eco.Audit.{write_audit_log}
use be_py_eco.Accounts.Tokens.{customer_by_id}

abbrev pub customer_actor_type : Text
customer_actor_type = codes "customer"

abbrev pub is_customer_token : Claims → Bool
is_customer_token c = elim c.actor_type [ none ↦ false | some t ↦ eq_text t customer_actor_type ]

abbrev pub revoke : ℕ → Session → Session
revoke at s = record s { revoked_at = some at }

abbrev pub update_sessions : (Session → Bool) → ℕ → Database → Database
update_sessions p at db = record db { sessions = update_rows p (revoke at) db.sessions }

-- the sessions that `revoke_session` and `revoke_all_sessions` update
abbrev pub is_open_session : ℕ → Session → Bool
is_open_session customer s = s.customer == customer && is_null s.revoked_at

module _ (sv : Services) where
  open sv use {sha256_hex, encode_refresh, encode_access, decode_refresh}

  unfoldable pub hash_jti : Text → Text
  hash_jti jti = sha256_hex jti

  -- `RefreshToken.for_user(customer)` with the actor claim
  unfoldable pub refresh_for_customer : Customer → Action Claims
  refresh_for_customer customer = do
    jti ← next_token
    issued ← now
    pure (record {
      jti = jti;
      user_id = customer.id;
      actor_type = some customer_actor_type;
      exp = (issued + refresh_token_lifetime) / 1000000;
    })

  unfoldable pub issue_session : Customer → Action (Text × Text)
  unfolding hash_jti refresh_for_customer create_session
  issue_session customer = do
    refresh ← refresh_for_customer customer
    id ← next_id
    at ← now
    created ← now
    create_session (record {
      id = id;
      created_at = created;
      customer = customer.id;
      refresh_token_hash = hash_jti refresh.jti;
      expires_at = at + refresh_token_lifetime;
      revoked_at = none;
    })
    pure (encode_access refresh, encode_refresh refresh)

  -- the checks of `rotate_refresh_token`, up to the session that the token stands for
  unfoldable pub session_of_token : Text → Action (Session × Customer)
  unfolding hash_jti session_is_active
  session_of_token raw = do
    t ← now
    claims ← or_raise (decode_refresh t raw) (accounts invalid_refresh_token)
    raise_if (not (is_customer_token claims)) (accounts invalid_refresh_token)
    rows ←
        reads
          (λ db. filter_rows (λ s. eq_text s.refresh_token_hash (hash_jti claims.jti)) db.sessions)
    session ← the_row rows (accounts invalid_refresh_token)
    customers ← reads (customer_by_id session.customer)
    customer ← the_row customers (accounts invalid_refresh_token)
    at ← now
    raise_if (not (session_is_active session at)) (accounts invalid_refresh_token)
    pure (session, customer)

  unfoldable pub rotate_refresh_token : Text → Action (Text × Text)
  unfolding session_of_token issue_session
  rotate_refresh_token raw = do
    found ← session_of_token raw
    at ← now
    modify (update_sessions (λ r. r.id == found.0.id) at)
    issue_session found.1

-- the filter of `revoke_session`
abbrev pub is_session_to_revoke : ℕ → ℕ → Session → Bool
is_session_to_revoke customer id s = s.id == id && is_open_session customer s

unfoldable pub revoke_session : Customer → ℕ → Option RequestMeta → Action (Unit {0})
unfolding write_audit_log
revoke_session customer session_id request = do
  at ← now
  found ← reads (λ db. exists_row (is_session_to_revoke customer.id session_id) db.sessions)
  modify (update_sessions (is_session_to_revoke customer.id session_id) at)
  raise_if (not found) (accounts session_not_found)
  write_audit_log (codes "customer") (uuid_text customer.id) (codes "accounts.revoke_session")
      (codes "session") (uuid_text session_id) (field (codes "revoked_at") null end)
      (field (codes "revoked_at") (str (codes "now")) end) [] (client_ip request)
      (request_id request)
  pure tt

unfoldable pub revoke_all_sessions : Customer → Action (Unit {0})
revoke_all_sessions customer = do
  at ← now
  modify (update_sessions (is_open_session customer.id) at)
