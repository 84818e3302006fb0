-- ===== src/Audit.antt =====
-- src/modules/audit/services/write_audit_log.py: an entry, with secret-shaped keys redacted.
pub mod Redaction
use be_py_eco.Prelude.{Option, List, [], ◌∷◌, if◌then◌else◌, Text, codes, in_texts, lower, before}
use be_py_eco.Schema.{Json, str, Fields, end, field, AuditLogEntry}
use be_py_eco.World.{Action, next_id, create_audit_log_entry, ◌>>=◌, ◌>>◌}

abbrev pub redacted_keys : List Text
redacted_keys =
    codes "password"
    ∷ codes "password_hash"
    ∷ codes "token"
    ∷ codes "token_hash"
    ∷ codes "secret"
    ∷ codes "key"
    ∷ []

abbrev pub redacted_placeholder : Json
redacted_placeholder = str (codes "<redacted>")

-- `_redact`; a missing dict is the empty one
unfoldable pub redact : Fields → Fields
redact end = end
redact (field key value rest) =
    field key (if in_texts (lower key) redacted_keys then redacted_placeholder else value)
      (redact rest)

unfoldable pub write_audit_log :
    Text
    → Text
    → Text
    → Text
    → Text
    → Fields
    → Fields
    → Text
    → Option Text
    → Text
    → Action AuditLogEntry
unfolding create_audit_log_entry redact
write_audit_log actor_type actor_id action resource_type resource_id before after reason ip req = do
  id ← next_id
  create_audit_log_entry (record {
    id = id;
    actor_type = actor_type;
    actor_id = actor_id;
    action = action;
    resource_type = resource_type;
    resource_id = resource_id;
    before = redact before;
    after = redact after;
    reason = reason;
    ip_address = ip;
    request_id = req;
  })
