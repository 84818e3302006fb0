-- ===== src/Accounts/Intact/Others.antt =====
-- The services that leave the customers as they are: sessions, tokens, passwords, staff and
-- devices, and the frame of the sensitive views.
use be_py_eco.Prelude.{ℕ, Option, none, some, Text, before}
use be_py_eco.Schema.{
  Customer, Staff, Purpose, LoginMethod, StaffTotpDevice, Fields, Json, IdempotencyRecord,
}
use be_py_eco.World.{Action, Services}
use be_py_eco.Common.Idempotency.{
  KeyScope, Response, run_once, judge_record, get_cached_response, store_response, replay_or_run,
  require_idempotency_key,
}
use be_py_eco.Audit.{write_audit_log}
use be_py_eco.Common.RequestContext.{RequestMeta}
use be_py_eco.Common.Http.{Request}
use be_py_eco.Accounts.Tokens.{issue_token, generate_token}
use be_py_eco.Accounts.Sessions.{
  revoke_session, revoke_all_sessions, rotate_refresh_token, session_of_token,
}
use be_py_eco.Accounts.Register.{create_password_method}
use be_py_eco.Accounts.Password.{
  answer_reset, request_password_reset, set_password, update_or_create_password,
  confirm_password_reset,
}
use be_py_eco.Accounts.EmailChange.{request_email_change}
use be_py_eco.Accounts.Login.{login_customer, login_staff}
use be_py_eco.Accounts.Mfa.{
  require_confirmed_mfa, get_or_create_device, start_mfa_setup, confirm_mfa_setup, reset_staff_mfa,
}
use be_py_eco.Accounts.StaffActions.{NewStaff, create_staff, sensitive_view}
use be_py_eco.Accounts.Intact.{Safe}
use be_py_eco.Accounts.Intact.Elsewhere.{elsewhere_rules}
use be_py_eco.Accounts.Intact.Operations.{find_token-Safe, issue_session-Safe}

write_audit_log-Safe :
    (actor_type actor_id action resource_type resource_id : Text) (before after : Fields)
    (reason : Text) (ip : Option Text) (id : Text)
    → Safe (
        write_audit_log actor_type actor_id action resource_type resource_id before after reason ip
          id)
unfolding write_audit_log
write_audit_log-Safe _ _ _ _ _ before after reason ip id = search elsewhere_rules

pub revoke_all_sessions-Safe : (c : Customer) → Safe (revoke_all_sessions c)
unfolding revoke_all_sessions
revoke_all_sessions-Safe c = search elsewhere_rules

pub revoke_session-Safe :
    (c : Customer) (id : ℕ) (request : Option RequestMeta) → Safe (revoke_session c id request)
unfolding revoke_session
revoke_session-Safe c id request = search (elsewhere_rules, write_audit_log-Safe) depth 20

require_confirmed_mfa-Safe : (s : Staff) → Safe (require_confirmed_mfa s)
unfolding require_confirmed_mfa
require_confirmed_mfa-Safe s = search elsewhere_rules

get_or_create_device-Safe :
    (id : ℕ) (found : Option StaffTotpDevice) → Safe (get_or_create_device id found)
unfolding get_or_create_device
get_or_create_device-Safe id none = search elsewhere_rules depth 20
get_or_create_device-Safe id (some d) = search elsewhere_rules

pub start_mfa_setup-Safe : (s : Staff) → Safe (start_mfa_setup s)
unfolding start_mfa_setup
start_mfa_setup-Safe s = search (elsewhere_rules, get_or_create_device-Safe) depth 20

pub reset_staff_mfa-Safe :
    (actor target : Staff) (request : Option RequestMeta)
    → Safe (reset_staff_mfa actor target request)
unfolding reset_staff_mfa
reset_staff_mfa-Safe actor target request =
    search (elsewhere_rules, require_confirmed_mfa-Safe, write_audit_log-Safe) depth 20

require_idempotency_key-Safe : (key : Option Text) → Safe (require_idempotency_key key)
unfolding require_idempotency_key
require_idempotency_key-Safe none = search elsewhere_rules
require_idempotency_key-Safe (some key) = search elsewhere_rules

module _ (sv : Services) where
  issue_token-Safe :
      (id : ℕ) (purpose : Purpose) (email : Text) (ttl : ℕ)
      → Safe (issue_token sv id purpose email ttl)
  unfolding issue_token generate_token
  issue_token-Safe id purpose email ttl = search elsewhere_rules depth 20

  pub login_customer-Safe : (email password : Text) → Safe (login_customer sv email password)
  unfolding login_customer
  login_customer-Safe email password = search (elsewhere_rules, issue_session-Safe) depth 20

  pub login_staff-Safe : (email password : Text) → Safe (login_staff sv email password)
  unfolding login_staff
  login_staff-Safe email password = search elsewhere_rules depth 20

  pub rotate_refresh_token-Safe : (raw : Text) → Safe (rotate_refresh_token sv raw)
  unfolding rotate_refresh_token session_of_token
  rotate_refresh_token-Safe raw = search (elsewhere_rules, issue_session-Safe) depth 30

  answer_reset-Safe : (c : Option Customer) → Safe (answer_reset sv c)
  unfolding answer_reset
  answer_reset-Safe none = search elsewhere_rules
  answer_reset-Safe (some c) = search (elsewhere_rules, issue_token-Safe) depth 20

  pub request_password_reset-Safe : (email : Text) → Safe (request_password_reset sv email)
  unfolding request_password_reset
  request_password_reset-Safe email = search (elsewhere_rules, answer_reset-Safe) depth 20

  set_password-Safe :
      (id : ℕ) (password : Text) (m : Option LoginMethod) → Safe (set_password sv id password m)
  unfolding set_password create_password_method
  set_password-Safe id password none = search elsewhere_rules depth 20
  set_password-Safe id password (some m) = search elsewhere_rules depth 20

  pub confirm_password_reset-Safe :
      (raw password : Text) → Safe (confirm_password_reset sv raw password)
  unfolding confirm_password_reset update_or_create_password
  confirm_password_reset-Safe raw password =
      search (elsewhere_rules, find_token-Safe, set_password-Safe) depth 30

  pub request_email_change-Safe :
      (c : Customer) (email : Text) → Safe (request_email_change sv c email)
  unfolding request_email_change
  request_email_change-Safe c email = search (elsewhere_rules, issue_token-Safe) depth 20

  pub confirm_mfa_setup-Safe : (s : Staff) (token : Text) → Safe (confirm_mfa_setup sv s token)
  unfolding confirm_mfa_setup
  confirm_mfa_setup-Safe s token = search elsewhere_rules depth 20

  pub create_staff-Safe :
      (actor : Staff) (form : NewStaff) (request : Option RequestMeta)
      → Safe (create_staff sv actor form request)
  unfolding create_staff
  create_staff-Safe actor form request =
      search (elsewhere_rules, require_confirmed_mfa-Safe, write_audit_log-Safe) depth 30

  judge_record-Safe : (body : Json) (r : Option IdempotencyRecord) → Safe (judge_record sv body r)
  unfolding judge_record
  judge_record-Safe body none = search elsewhere_rules
  judge_record-Safe body (some r) = search elsewhere_rules depth 20

  store_response-Safe :
      (scope : KeyScope) (body : Json) (response : Response)
      → Safe (store_response sv scope body response)
  unfolding store_response
  store_response-Safe scope body response = search elsewhere_rules depth 20

  module _ (handler : Action Response) (handler_keeps : Safe handler) where
    replay_or_run-Safe :
        (scope : KeyScope) (body : Json) (cached : Option Response)
        → Safe (replay_or_run sv scope body handler cached)
    unfolding replay_or_run
    replay_or_run-Safe scope body none = search (elsewhere_rules, store_response-Safe) depth 20
    replay_or_run-Safe scope body (some r) = search elsewhere_rules

    pub sensitive_view-Safe :
        (codename : Text) (actor : Staff) (request : Request)
        → Safe (sensitive_view sv codename actor request handler)
    unfolding sensitive_view run_once get_cached_response
    sensitive_view-Safe codename actor request =
        search
          (
            elsewhere_rules, require_confirmed_mfa-Safe, require_idempotency_key-Safe,
            judge_record-Safe, replay_or_run-Safe,
          )
          depth 30
