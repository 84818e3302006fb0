-- ===== src/Accounts/StaffActions.antt =====
-- The sensitive actions on accounts: src/modules/accounts/services/create_staff.py and
-- disable_customer.py, and the views of api/admin/views.py that run them once for each
-- idempotency key.
pub mod Disable
pub mod Guards
pub mod Replay
use be_py_eco.Prelude.{
  ℕ, Bool, true, false, not, Option, some, [], ◌==◌, Text, codes, is_empty, strip, filter_rows,
}
use be_py_eco.Errors.{
  accounts, failure, validation, does_not_exist, customer_not_found, insufficient_permission,
  mfa_not_configured, reason_required,
}
use be_py_eco.Schema.{Customer, Staff, Json, bool, str, obj, Fields, end, field}
use be_py_eco.World.{
  Action, pure, reads, the_row, or_raise, raise_if, modify, next_id, next_token, Services,
  insert_staff, ◌>>=◌, ◌>>◌,
}
use be_py_eco.Common.Permissions.{
  role_allows, create_staff_codename, disable_customer_codename, reset_staff_mfa_codename,
}
use be_py_eco.Common.RequestContext.{RequestMeta, client_ip, request_id}
use be_py_eco.Common.Render.{uuid_text}
use be_py_eco.Common.Idempotency.{KeyScope, Response, run_once, require_idempotency_key}
use be_py_eco.Common.Http.{Request, data_response, empty_response}
use be_py_eco.Audit.{write_audit_log}
use be_py_eco.Accounts.Tokens.{normalize_email, customer_by_id, save_customer}
use be_py_eco.Accounts.Sessions.{revoke_all_sessions}
use be_py_eco.Accounts.Mfa.{has_confirmed_mfa, require_confirmed_mfa, reset_staff_mfa}

pub record NewStaff : Type 0 where
  pub email : Text
  pub password : Text
  pub role : Text

unfoldable pub create_staff : Services → Staff → NewStaff → Option RequestMeta → Action Staff
unfolding require_confirmed_mfa insert_staff write_audit_log
create_staff sv actor form request = do
  raise_if (not (role_allows actor.role create_staff_codename)) (accounts insufficient_permission)
  require_confirmed_mfa actor
  salt ← next_token
  id ← next_id
  staff ← insert_staff (record {
    id = id;
    email = normalize_email form.email;
    password_hash = sv.make_password salt form.password;
    role = form.role;
    is_active = true;
  })
  write_audit_log (codes "staff") (uuid_text actor.id) (codes "accounts.create_staff")
      (codes "staff") (uuid_text staff.id) end
      (field (codes "email") (str staff.email) (field (codes "role") (str staff.role) end)) []
      (client_ip request) (request_id request)
  pure staff

abbrev pub deactivate : Customer → Customer
deactivate c = record c { is_active = false }

abbrev active_state : Bool → Fields
active_state b = field (codes "is_active") (bool b) end

unfoldable pub disable_customer : Staff → ℕ → Text → Option RequestMeta → Action Customer
unfolding revoke_all_sessions write_audit_log
disable_customer actor customer_id reason request = do
  raise_if (not (role_allows actor.role disable_customer_codename))
      (accounts insufficient_permission)
  confirmed ← reads (has_confirmed_mfa actor)
  raise_if (not confirmed) (accounts mfa_not_configured)
  raise_if (is_empty (strip reason)) (accounts reason_required)
  rows ← reads (customer_by_id customer_id)
  customer ← the_row rows (accounts customer_not_found)
  modify (save_customer customer.id deactivate)
  revoke_all_sessions customer
  write_audit_log (codes "staff") (uuid_text actor.id) (codes "accounts.disable_customer")
      (codes "customer") (uuid_text customer.id) (active_state true) (active_state false)
      (strip reason) (client_ip request) (request_id request)
  pure (deactivate customer)

-- the scope of a staff member's key: neither the path nor its parameters are part of it
abbrev pub key_scope : Text → Staff → Text → KeyScope
key_scope codename actor key = record {
  actor_type = codes "staff";
  actor_id = uuid_text actor.id;
  action = codename;
  idempotency_key = key;
}

-- The three views share their frame: the policy, the confirmed device and the key come before
-- the replay, and the body is validated after it.
unfoldable pub sensitive_view :
    Services → Text → Staff → Request → Action Response → Action Response
unfolding require_confirmed_mfa require_idempotency_key
sensitive_view sv codename actor request handler = do
  raise_if (not (role_allows actor.role codename)) (accounts insufficient_permission)
  require_confirmed_mfa actor
  key ← require_idempotency_key request.idempotency_key
  run_once sv (key_scope codename actor key) request.body handler

abbrev staff_representation : Staff → Json
staff_representation s = obj (
    field (codes "id") (str (uuid_text s.id))
      (field (codes "email") (str s.email) (field (codes "role") (str s.role) end)))

-- `CreateStaffView.post`; `form` is the serializer's verdict on the body
unfoldable pub create_staff_view :
    Services → (Json → Option NewStaff) → Staff → Request → Action Response
unfolding sensitive_view
create_staff_view sv form actor request = sensitive_view sv create_staff_codename actor request (do
  staff_form ← or_raise (form request.body) validation
  staff ← create_staff sv actor staff_form (some request.meta)
  pure (data_response 201 (staff_representation staff) request))

-- what `DisableCustomerView.post` does for a fresh key
abbrev pub disable_handler : (Json → Option Text) → Staff → ℕ → Request → Action Response
disable_handler reason_of actor customer_id request = do
  reason ← or_raise (reason_of request.body) validation
  disable_customer actor customer_id reason (some request.meta)
  pure (empty_response 204)

-- `DisableCustomerView.post`
unfoldable pub disable_customer_view :
    Services → (Json → Option Text) → Staff → ℕ → Request → Action Response
unfolding sensitive_view
disable_customer_view sv reason_of actor customer_id request =
    sensitive_view sv disable_customer_codename actor request
      (disable_handler reason_of actor customer_id request)

-- `ResetStaffMfaView.post`: an unknown `staff_id` raises `Staff.DoesNotExist`
unfoldable pub reset_staff_mfa_view : Services → Staff → ℕ → Request → Action Response
unfolding sensitive_view
reset_staff_mfa_view sv actor staff_id request =
    sensitive_view sv reset_staff_mfa_codename actor request (do
      rows ← reads (λ db. filter_rows (λ s. s.id == staff_id) db.staff)
      target_staff ← the_row rows (failure does_not_exist)
      reset_staff_mfa actor target_staff (some request.meta)
      pure (empty_response 204))
