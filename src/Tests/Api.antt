-- ===== src/Tests/Api.antt =====
-- Requests to the endpoints.
use be_py_eco.Accounts.StaffActions.{sensitive_view}
use be_py_eco.Common.Permissions.{create_staff_codename, master_admin}
use be_py_eco.Accounts.Tokens.{normalize_email}
use be_py_eco.Accounts.Api.Forms.{request_reset_form}
use be_py_eco.Prelude.{
  ◌≡◌, refl, true, false, none, some, [], ◌∷◌, ◌++◌, codes, eq_text, in_texts, exists_row,
}
use be_py_eco.Errors.{failure, smtp_error, accounts, mfa_not_configured}
use be_py_eco.Schema.{Staff, null, Json, obj, field, str, end}
use be_py_eco.Common.Render.{uuid_text}
use be_py_eco.Common.Authentication.{staff_actor}
use be_py_eco.Common.Throttling.{cache_key, email_text, throttle_keys}
use be_py_eco.Accounts.Api.Throttles.{throttle_classes}
use be_py_eco.Accounts.Api.SharedScope.{forged_throttle_keys}
use be_py_eco.World.{World, pure, err}
use be_py_eco.Common.Http.{anonymous, empty_response}
use be_py_eco.Accounts.Api.Routes.{accounts_login, admin_staff_mfa_confirm}
use be_py_eco.Accounts.Api.NoEnumeration.{request_reset_view-answer}
use be_py_eco.Accounts.Api.Storefront.{request_reset_view}
use be_py_eco.Accounts.Api.Admin.{create_master_admin}
use be_py_eco.Accounts.Api.Bootstrap.{create_master_admin-ok}
use be_py_eco.Tests.Samples.{services, empty, world, carol, signed_in}
use be_py_eco.Common.Problem.{get_key}
use be_py_eco.World.{insert_staff}
use be_py_eco.Common.Permissions.{check_policy, has_permission}
use be_py_eco.Tests.Framework.{
  string_of, text_field, framework, request_of, as_carol, register_body,
}

abbrev unmailed : World
unmailed = record (world signed_in) { mail_refused = λ n. true }

request_reset_view-answer_example :
    (request_reset_view services framework (request_of anonymous register_body) unmailed).0
    ≡ err (failure smtp_error)
unfolding request_reset_form get_key eq_text text_field exists_row normalize_email
request_reset_view-answer_example =
    request_reset_view-answer services framework (request_of anonymous register_body) (97 ∷ [])
      unmailed refl (refl, tt) refl

abbrev admin : Staff
admin = record {
  id = 100;
  email = 97 ∷ [];
  password_hash = 7 ∷ [];
  role = codes "master_admin";
  is_active = true;
}

create_master_admin-ok_example :
    let w' = (create_master_admin services framework (97 ∷ []) none (7 ∷ []) (world empty)).1 in
    (admin.email ≡ normalize_email (97 ∷ []))
    × (admin.role ≡ master_admin)
    × (admin.is_active ≡ true)
    × (exists_row (λ t. eq_text t.email (normalize_email (97 ∷ []))) (world empty).db.staff ≡ false)
    × (w'.db ≡ record (world empty).db { staff = (world empty).db.staff ++ admin ∷ [] })
    × (sensitive_view services create_staff_codename admin
          (request_of as_carol null)
          (pure (empty_response 204))
          w'
        ≡ (err (accounts mfa_not_configured), w'))
unfolding create_master_admin exists_row normalize_email check_policy has_permission in_texts
    eq_text insert_staff
create_master_admin-ok_example =
    create_master_admin-ok services framework (97 ∷ []) (7 ∷ []) none (world empty) admin
      create_staff_codename (request_of as_carol null) (pure (empty_response 204)) refl refl refl

-- a sign-in with carol's id for an email
abbrev forged_body : Json
forged_body = obj (field (codes "email") (str (uuid_text carol.id)) end)

forged_throttle_keys_example :
    throttle_keys framework
      (λ meta. [])
      (throttle_classes accounts_login)
      (request_of anonymous forged_body)
      none
    ≡ cache_key (codes "auth_ip") []
      ∷ throttle_keys framework
          (λ meta. [])
          (throttle_classes admin_staff_mfa_confirm)
          (request_of as_carol null)
          (some (staff_actor carol))
unfolding email_text get_key eq_text uuid_text string_of
forged_throttle_keys_example =
    forged_throttle_keys framework (λ meta. []) carol (request_of anonymous forged_body)
      (request_of as_carol null) refl
