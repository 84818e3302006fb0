-- ===== src/Schema/Accounts.antt =====
-- The models of modules/accounts, modules/audit and common/db.
use be_py_eco.Prelude.{ℕ, Bool, true, false, Option, none, some, Text, is_some, ltb, ◌&&◌}
use be_py_eco.Schema.Values.{Json, Fields}

pub record Customer : Type 0 where
  pub id : ℕ
  pub email : Text
  pub email_verified_at : Option ℕ
  pub is_active : Bool
  pub preferred_locale : Text
  pub preferred_currency : Text

abbrev pub is_email_verified : Customer → Bool
is_email_verified c = is_some c.email_verified_at

pub data Provider : Type 0 where
  password google : Provider

abbrev pub eq_provider : Provider → Provider → Bool
eq_provider password password = true
eq_provider google google = true
eq_provider _ _ = false

pub record LoginMethod : Type 0 where
  pub id : ℕ
  pub customer : ℕ
  pub provider : Provider
  pub password_hash : Text
  pub provider_subject_id : Text

pub record Session : Type 0 where
  pub id : ℕ
  pub created_at : ℕ
  pub customer : ℕ
  pub refresh_token_hash : Text
  pub expires_at : ℕ
  pub revoked_at : Option ℕ

abbrev pub is_null : Option ℕ → Bool
is_null none = true
is_null (some _) = false

-- `Session.is_active`, read at the time `now`
unfoldable pub session_is_active : Session → ℕ → Bool
session_is_active s now = is_null s.revoked_at && ltb now s.expires_at

pub data Purpose : Type 0 where
  email_verification password_reset email_change : Purpose

abbrev pub eq_purpose : Purpose → Purpose → Bool
eq_purpose email_verification email_verification = true
eq_purpose password_reset password_reset = true
eq_purpose email_change email_change = true
eq_purpose _ _ = false

pub record VerificationToken : Type 0 where
  pub id : ℕ
  pub customer : ℕ
  pub purpose : Purpose
  pub token_hash : Text
  pub new_email : Text
  pub expires_at : ℕ
  pub consumed_at : Option ℕ

-- `role` is free text here as in the services: the choices are checked by the serializer.
pub record Staff : Type 0 where
  pub id : ℕ
  pub email : Text
  pub password_hash : Text
  pub role : Text
  pub is_active : Bool

pub record StaffTotpDevice : Type 0 where
  pub id : ℕ
  pub staff : ℕ
  pub key : Text
  pub confirmed_at : Option ℕ

pub record AuditLogEntry : Type 0 where
  pub id : ℕ
  pub actor_type : Text
  pub actor_id : Text
  pub action : Text
  pub resource_type : Text
  pub resource_id : Text
  pub before : Fields
  pub after : Fields
  pub reason : Text
  pub ip_address : Option Text
  pub request_id : Text

pub record IdempotencyRecord : Type 0 where
  pub id : ℕ
  pub actor_type : Text
  pub actor_id : Text
  pub action : Text
  pub idempotency_key : Text
  pub request_hash : Text
  pub response_status : ℕ
  pub response_body : Json
  pub expires_at : ℕ

pub record OutboxEvent : Type 0 where
  pub id : ℕ
  pub event_type : Text
  pub payload : Json
  pub dispatched_at : Option ℕ
