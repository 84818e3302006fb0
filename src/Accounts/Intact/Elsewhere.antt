-- ===== src/Accounts/Intact/Elsewhere.antt =====
-- What creates rows, other than customers, or updates other tables.
use be_py_eco.Prelude.{◌≡◌, refl, arith, eq_text_iff}
use be_py_eco.Schema.{
  Database, OutboxEvent, MediaUpload, LoginMethod, Session, VerificationToken, Staff,
  StaffTotpDevice, AuditLogEntry, IdempotencyRecord,
}
use be_py_eco.Prelude.Queries.{Unique-append}
use be_py_eco.World.{
  create_outbox_event, insert_media_upload, clash_staff, modify, create_login_method,
  create_session, create_verification_token, insert_staff, create_totp_device,
  create_audit_log_entry, create_idempotency_record,
}
use be_py_eco.Accounts.Intact.{Safe, Extends-append, product_ids}
use be_py_eco.Accounts.Intact.Rules.{safe_rules}

pub create_login_method-Safe : (r : LoginMethod) → Safe (create_login_method r)
unfolding Safe create_login_method
create_login_method-Safe r start w u = ground arith

pub create_session-Safe : (r : Session) → Safe (create_session r)
unfolding Safe create_session
create_session-Safe r start w u = ground arith

pub create_verification_token-Safe : (r : VerificationToken) → Safe (create_verification_token r)
unfolding Safe create_verification_token
create_verification_token-Safe r start w u = ground arith

clash_staff_comm : (a b : Staff) → clash_staff a b ≡ clash_staff b a
clash_staff_comm a b = ground (arith, eq_text_iff a.email b.email, eq_text_iff b.email a.email)

pub insert_staff-Safe : (r : Staff) → Safe (insert_staff r)
unfolding Safe insert_staff
insert_staff-Safe r start w u = ground (
  arith,
  Unique-append clash_staff r w.db.staff clash_staff_comm,
  Extends-append start.staff w.db.staff r,
)

pub create_totp_device-Safe : (r : StaffTotpDevice) → Safe (create_totp_device r)
unfolding Safe create_totp_device
create_totp_device-Safe r start w u = ground arith

pub create_audit_log_entry-Safe : (r : AuditLogEntry) → Safe (create_audit_log_entry r)
unfolding Safe create_audit_log_entry
create_audit_log_entry-Safe r start w u =
    ground (arith, Extends-append start.audit_log w.db.audit_log r)

pub create_idempotency_record-Safe : (r : IdempotencyRecord) → Safe (create_idempotency_record r)
unfolding Safe create_idempotency_record
create_idempotency_record-Safe r start w u = ground arith

pub create_outbox_event-Safe : (r : OutboxEvent) → Safe (create_outbox_event r)
unfolding Safe create_outbox_event
create_outbox_event-Safe r start w u = ground (arith, Extends-append start.outbox w.db.outbox r)

pub insert_media_upload-Safe : (r : MediaUpload) → Safe (insert_media_upload r)
unfolding Safe insert_media_upload
insert_media_upload-Safe r start w u = ground arith

module _ (f : Database → Database) (customers : (db : Database) → (f db).customers ≡ db.customers)
    (products : (db : Database) → product_ids (f db).products ≡ product_ids db.products)
    (staff : (db : Database) → (f db).staff ≡ db.staff)
    (audit_log : (db : Database) → (f db).audit_log ≡ db.audit_log)
    (outbox : (db : Database) → (f db).outbox ≡ db.outbox) where
  -- an update of the database that leaves the customers, the staff and the logs, and the products'
  -- ids
  pub modify-Safe : Safe (modify f)
  unfolding Safe
  modify-Safe start w u = record {
    customers_apart = rw (customers w.db) (u.customers_apart);
    staff_apart = rw (staff w.db) (u.staff_apart);
    customers_kept = rw (customers w.db) (u.customers_kept);
    products_kept = rw (products w.db) (u.products_kept);
    staff_kept = rw (staff w.db) (u.staff_kept);
    audit_log_kept = rw (audit_log w.db) (u.audit_log_kept);
    outbox_kept = rw (outbox w.db) (u.outbox_kept);
  }

pub ruleset elsewhere_rules = (
  safe_rules, create_login_method-Safe, create_session-Safe, create_verification_token-Safe,
  insert_staff-Safe, create_totp_device-Safe, create_audit_log_entry-Safe,
  create_idempotency_record-Safe, create_outbox_event-Safe, insert_media_upload-Safe, modify-Safe,
  refl,
)
