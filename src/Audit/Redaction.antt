-- ===== src/Audit/Redaction.antt =====
-- What an entry of the audit log hides. The values under the members of a JSON object that is
-- itself a value are stored as they are given.
use be_py_eco.Prelude.{
  ◌≡◌, ◌⊎◌, Bool, true, false, Option, List, [], ◌∷◌, ◌++◌, arith, Text, codes, in_texts, lower,
}
use be_py_eco.Schema.{str, Fields, end, field, AuditLogEntry}
use be_py_eco.World.{World, ok}
use be_py_eco.Audit.{redacted_keys, redact, write_audit_log}

-- the keys whose values are no business of the log: passwords and tokens, and their hashes, secrets
-- and keys; they are listed here apart from the code
abbrev pub secret_names : List Text
secret_names =
    codes "key"
    ∷ codes "secret"
    ∷ codes "token"
    ∷ codes "token_hash"
    ∷ codes "password"
    ∷ codes "password_hash"
    ∷ []

abbrev pub is_secret : Text → Bool
is_secret key = in_texts (lower key) secret_names

-- every member with such a key, in any case, holds the placeholder
abbrev pub NoSecrets : Fields → Type 0
NoSecrets end = Unit
NoSecrets (field key value rest) =
    ((is_secret key ≡ false) ⊎ (value ≡ str (codes "<redacted>"))) × NoSecrets rest

-- the same keys in the same order, and the values of the other keys
abbrev pub KeepsOthers : Fields → Fields → Type 0
KeepsOthers end end = Unit
KeepsOthers (field k v rest) (field k' v' rest') =
    (k' ≡ k) × ((is_secret k ≡ true) ⊎ (v' ≡ v)) × KeepsOthers rest rest'
KeepsOthers _ _ = ⊥

same_names : (t : Text) → in_texts t redacted_keys ≡ in_texts t secret_names
unfolding in_texts
same_names t = ground arith

redact_lem : (fs : Fields) → NoSecrets (redact fs) × KeepsOthers fs (redact fs)
unfolding redact
redact_lem end = (tt, tt)
redact_lem (field k v rest) = ground (arith, same_names (lower k), redact_lem rest)

-- An entry that is written is the one row that is added to the database. Its own members, before
-- and after, hold the placeholder under `password`, `password_hash`, `token`, `token_hash`, `secret`
-- and `key`, in any case, and are otherwise those that were given, in their order.
pub write_audit_log-redacted :
    (actor_type actor_id action resource_type resource_id : Text) (before after : Fields)
    (reason : Text) (ip : Option Text) (req : Text) (w : World) (e : AuditLogEntry)
    → let written =
        write_audit_log actor_type actor_id action resource_type resource_id before after reason ip
          req w in
      written.0 ≡ ok e
      → (written.1.db ≡ record w.db { audit_log = w.db.audit_log ++ e ∷ [] })
        × (NoSecrets e.before × KeepsOthers before e.before)
        × (NoSecrets e.after × KeepsOthers after e.after)
unfolding write_audit_log
write_audit_log-redacted actor_type actor_id action resource_type resource_id before after reason ip
      req w e h =
    let stored_before : e.before ≡ redact before = ground arith in
    let stored_after : e.after ≡ redact after = ground arith in
    (ground arith, rw stored_before (redact_lem before), rw stored_after (redact_lem after))
