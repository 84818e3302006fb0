-- ===== src/Accounts/Api/Admin.antt =====
-- src/modules/accounts/api/admin/views.py, behind the permission classes of each view, and
-- management/commands/create_master_admin.py
use be_py_eco.Prelude.{
  ℕ, true, not, ◌&&◌, Option, none, some, [], ◌∷◌, ◌++◌, ◌==◌, if◌then◌else◌, Text, codes, eq_text,
  is_empty, exists_row,
}
use be_py_eco.Errors.{failure, validation, command_error}
use be_py_eco.Schema.{Staff, str, obj, end, field}
use be_py_eco.World.{
  Action, pure, reads, or_raise, raise_if, next_id, next_token, Services, insert_staff, ◌>>=◌, ◌>>◌,
}
use be_py_eco.Common.Idempotency.{Response}
use be_py_eco.Common.Permissions.{master_admin}
use be_py_eco.Common.Http.{Framework, Request, empty_response, data_response}
use be_py_eco.Accounts.Tokens.{normalize_email}
use be_py_eco.Accounts.Mfa.{start_mfa_setup, confirm_mfa_setup}
use be_py_eco.Accounts.Login.{login_staff}
use be_py_eco.Accounts.StaffActions.{create_staff_view, disable_customer_view, reset_staff_mfa_view}
use be_py_eco.Accounts.Api.Forms.{
  confirm_mfa_form, disable_customer_form, staff_login_form, create_staff_form,
}
use be_py_eco.Accounts.Api.Storefront.{token_pair}

-- `s.rstrip("=")`
unfoldable pub rstrip_padding : Text → Text
rstrip_padding [] = []
rstrip_padding (c ∷ s) =
    let rest = rstrip_padding s in if c == 61 && is_empty rest then [] else c ∷ rest

-- `options["password"] or getpass.getpass(…)`
abbrev password_or : Option Text → Text → Text
password_or none prompted = prompted
password_or (some password) prompted = if is_empty password then prompted else password

module _ (sv : Services) (fw : Framework) where
  open sv use {make_password}
  open fw use {b32encode_hex, password_is_valid}

  -- `_provisioning_uri(device)`, with the email of the device's owner
  unfoldable pub provisioning_uri : Text → Staff → Text
  unfolding rstrip_padding
  provisioning_uri key staff =
      codes "otpauth://totp/be-py-eco:"
      ++ (staff.email
          ++ (codes "?secret="
              ++ (rstrip_padding (b32encode_hex key) ++ codes "&issuer=be-py-eco")))

  unfoldable pub staff_login_view : Request → Action Response
  staff_login_view request = do
    form ← or_raise (staff_login_form fw request.body) validation
    result ← login_staff sv form.0 form.1
    pure (data_response 200 (token_pair result.1 result.2) request)

  unfoldable pub mfa_setup_view : Request → Staff → Action Response
  mfa_setup_view request staff = do
    device ← start_mfa_setup staff
    pure (
        data_response 200
          (obj (field (codes "provisioning_uri") (str (provisioning_uri device.key staff)) end))
          request)

  unfoldable pub mfa_confirm_view : Request → Staff → Action Response
  mfa_confirm_view request staff = do
    token ← or_raise (confirm_mfa_form fw request.body) validation
    confirm_mfa_setup sv staff token
    pure (empty_response 204)

  -- the sensitive views with their serializers
  abbrev pub post_create_staff : Request → Staff → Action Response
  post_create_staff request staff = create_staff_view sv (create_staff_form fw) staff request

  abbrev pub post_disable_customer : ℕ → Request → Staff → Action Response
  post_disable_customer customer_id request staff =
      disable_customer_view sv (disable_customer_form fw) staff customer_id request

  abbrev pub post_reset_staff_mfa : ℕ → Request → Staff → Action Response
  post_reset_staff_mfa staff_id request staff = reset_staff_mfa_view sv staff staff_id request

  -- `Command.handle`; `prompted` is what the terminal answers
  unfoldable pub create_master_admin : Text → Option Text → Text → Action Staff
  create_master_admin email password prompted = do
    taken ← reads (λ db. exists_row (λ s. eq_text s.email (normalize_email email)) db.staff)
    raise_if taken (failure command_error)
    raise_if (not (password_is_valid (password_or password prompted))) (failure command_error)
    salt ← next_token
    id ← next_id
    insert_staff (record {
      id = id;
      email = normalize_email email;
      password_hash = make_password salt (password_or password prompted);
      role = master_admin;
      is_active = true;
    })
