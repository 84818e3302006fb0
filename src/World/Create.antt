-- ===== src/World/Create.antt =====
-- `objects.create` for each model: the database refuses a row that clashes with another one on
-- the primary key or on a unique constraint, and a text that is longer than its column.
use be_py_eco.Prelude.{
  Bool, ◌&&◌, ◌||◌, [], ◌∷◌, ◌++◌, ltb, ◌==◌, if◌then◌else◌, eq_text, length, exists_row,
}
use be_py_eco.Errors.{failure, integrity_error, data_error}
use be_py_eco.Schema.{
  Customer, google, eq_provider, LoginMethod, Session, VerificationToken, Staff, StaffTotpDevice,
  AuditLogEntry, IdempotencyRecord, OutboxEvent,
}
use be_py_eco.World.Monad.{Action, ok, err}

abbrev pub clash_customer : Customer → Customer → Bool
clash_customer a b = a.id == b.id || eq_text a.email b.email

unfoldable pub create_customer : Customer → Action Customer
create_customer c w =
    if exists_row (clash_customer c) w.db.customers
    then (err (failure integrity_error), w)
    else (ok c, record w { db = record w.db { customers = w.db.customers ++ c ∷ [] } })

-- a login method of the same provider for the same customer, or the same Google account
abbrev pub clash_login_method : LoginMethod → LoginMethod → Bool
clash_login_method a b =
    a.id == b.id
    || (a.customer == b.customer && eq_provider a.provider b.provider)
    || (eq_provider a.provider google
        && eq_provider b.provider google
        && eq_text a.provider_subject_id b.provider_subject_id)

unfoldable pub create_login_method : LoginMethod → Action LoginMethod
create_login_method m w =
    if exists_row (clash_login_method m) w.db.login_methods
    then (err (failure integrity_error), w)
    else (ok m, record w { db = record w.db { login_methods = w.db.login_methods ++ m ∷ [] } })

abbrev pub clash_session : Session → Session → Bool
clash_session a b = a.id == b.id || eq_text a.refresh_token_hash b.refresh_token_hash

unfoldable pub create_session : Session → Action Session
create_session s w =
    if exists_row (clash_session s) w.db.sessions
    then (err (failure integrity_error), w)
    else (ok s, record w { db = record w.db { sessions = w.db.sessions ++ s ∷ [] } })

abbrev pub clash_verification_token : VerificationToken → VerificationToken → Bool
clash_verification_token a b = a.id == b.id || eq_text a.token_hash b.token_hash

unfoldable pub create_verification_token : VerificationToken → Action VerificationToken
create_verification_token t w =
    if exists_row (clash_verification_token t) w.db.verification_tokens
    then (err (failure integrity_error), w)
    else (
      ok t,
      record w { db = record w.db { verification_tokens = w.db.verification_tokens ++ t ∷ [] } },
    )

abbrev pub clash_staff : Staff → Staff → Bool
clash_staff a b = a.id == b.id || eq_text a.email b.email

unfoldable pub insert_staff : Staff → Action Staff
insert_staff s w =
    if exists_row (clash_staff s) w.db.staff
    then (err (failure integrity_error), w)
    else (ok s, record w { db = record w.db { staff = w.db.staff ++ s ∷ [] } })

abbrev pub clash_totp_device : StaffTotpDevice → StaffTotpDevice → Bool
clash_totp_device a b = a.id == b.id || a.staff == b.staff

unfoldable pub create_totp_device : StaffTotpDevice → Action StaffTotpDevice
create_totp_device d w =
    if exists_row (clash_totp_device d) w.db.totp_devices
    then (err (failure integrity_error), w)
    else (ok d, record w { db = record w.db { totp_devices = w.db.totp_devices ++ d ∷ [] } })

-- `reason = CharField(max_length=255)`
unfoldable pub create_audit_log_entry : AuditLogEntry → Action AuditLogEntry
create_audit_log_entry e w =
    if exists_row (λ other. e.id == other.id) w.db.audit_log
    then (err (failure integrity_error), w)
    else if ltb 255 (length e.reason)
    then (err (failure data_error), w)
    else (ok e, record w { db = record w.db { audit_log = w.db.audit_log ++ e ∷ [] } })

abbrev pub same_idempotency_key : IdempotencyRecord → IdempotencyRecord → Bool
same_idempotency_key a b =
    eq_text a.actor_type b.actor_type
    && eq_text a.actor_id b.actor_id
    && eq_text a.action b.action
    && eq_text a.idempotency_key b.idempotency_key

abbrev pub clash_idempotency_record : IdempotencyRecord → IdempotencyRecord → Bool
clash_idempotency_record a b = a.id == b.id || same_idempotency_key a b

unfoldable pub create_idempotency_record : IdempotencyRecord → Action IdempotencyRecord
create_idempotency_record r w =
    if exists_row (clash_idempotency_record r) w.db.idempotency_records
    then (err (failure integrity_error), w)
    else (
      ok r,
      record w { db = record w.db { idempotency_records = w.db.idempotency_records ++ r ∷ [] } },
    )

unfoldable pub create_outbox_event : OutboxEvent → Action OutboxEvent
create_outbox_event e w =
    if exists_row (λ other. e.id == other.id) w.db.outbox
    then (err (failure integrity_error), w)
    else (ok e, record w { db = record w.db { outbox = w.db.outbox ++ e ∷ [] } })
