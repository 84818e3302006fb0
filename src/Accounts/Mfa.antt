-- ===== src/Accounts/Mfa.antt =====
-- src/modules/accounts/services/mfa.py and models/mfa_device.py
use be_py_eco.Prelude.{
  ℕ, ◌+◌, ◌-◌, ◌*◌, Bool, true, false, not, ◌&&◌, ◌||◌, Option, none, some, [], ◌∷◌, leb, ◌==◌,
  if◌then◌else◌, is_some, Text, codes, strip, filter_rows, exists_row, update_rows, delete_rows,
}
use be_py_eco.Errors.{accounts, insufficient_permission, invalid_mfa_token, mfa_not_configured}
use be_py_eco.Schema.{Database, Staff, StaffTotpDevice, bool, Fields, end, field}
use be_py_eco.World.{
  Action, pure, reads, the_row, maybe_row, raise_if, modify, now, next_id, next_token, Services,
  create_totp_device, ◌>>=◌, ◌>>◌,
}
use be_py_eco.Common.Permissions.{role_allows, reset_staff_mfa_codename}
use be_py_eco.Common.RequestContext.{RequestMeta, client_ip, request_id}
use be_py_eco.Common.Render.{uuid_text}
use be_py_eco.Audit.{write_audit_log}

abbrev pub is_device_of : ℕ → StaffTotpDevice → Bool
is_device_of staff d = d.staff == staff

-- `Staff.has_confirmed_mfa`: a staff member has one device at most
unfoldable pub has_confirmed_mfa : Staff → Database → Bool
has_confirmed_mfa staff db =
    exists_row (λ d. is_device_of staff.id d && is_some d.confirmed_at) db.totp_devices

unfoldable pub require_confirmed_mfa : Staff → Action (Unit {0})
require_confirmed_mfa staff = do
  confirmed ← reads (has_confirmed_mfa staff)
  raise_if (not confirmed) (accounts mfa_not_configured)

-- the device that there is, or a new one with the key that was drawn
unfoldable pub get_or_create_device : ℕ → Option StaffTotpDevice → Action StaffTotpDevice
unfolding create_totp_device
get_or_create_device staff (some device) = pure device
get_or_create_device staff none = do
  id ← next_id
  key ← next_token
  create_totp_device (record { id = id; staff = staff; key = key; confirmed_at = none })

unfoldable pub start_mfa_setup : Staff → Action StaffTotpDevice
unfolding get_or_create_device
start_mfa_setup staff = do
  rows ← reads (λ db. filter_rows (is_device_of staff.id) db.totp_devices)
  device ← maybe_row rows
  get_or_create_device staff.id device

abbrev pub confirm_device : ℕ → StaffTotpDevice → StaffTotpDevice
confirm_device at d = record d { confirmed_at = some at }

abbrev pub save_confirmed : ℕ → ℕ → Database → Database
save_confirmed id at db = record db {
  totp_devices = update_rows (λ r. r.id == id) (confirm_device at) db.totp_devices;
}

abbrev pub delete_devices : ℕ → Database → Database
delete_devices staff db = record db {
  totp_devices = delete_rows (is_device_of staff) db.totp_devices;
}

-- digits with single underscores between them; `digit_before` tells what stood to the left
parse_digits : ℕ → Bool → Text → Option ℕ
parse_digits n digit_before [] = if digit_before then some n else none
parse_digits n digit_before (c ∷ s) =
    let more = parse_digits (n * 10 + (c - 48)) true s in
    let next = parse_digits n false s in
    if leb 48 c && leb c 57 then more else if c == 95 && digit_before then next else none

-- a leading `-` leaves the integers that a code can equal only at zero
abbrev zero_only : Option ℕ → Option ℕ
zero_only none = none
zero_only (some n) = if n == 0 then some 0 else none

parse_signed : Text → Option ℕ
parse_signed [] = none
parse_signed (c ∷ s) =
    if c == 43
    then parse_digits 0 false s
    else if c == 45
    then zero_only (parse_digits 0 false s)
    else parse_digits 0 false (c ∷ s)

-- `int(token)` for ASCII texts, as far as it can equal a code: `none` for a `ValueError` and for
-- a negative number
unfoldable pub parse_int : Text → Option ℕ
unfolding parse_digits parse_signed strip
parse_int token = parse_signed (strip token)

module _ (sv : Services) where
  open sv use {totp, totp_previous}

  abbrev code_matches : Text → ℕ → Option ℕ → Bool
  code_matches key at none = false
  code_matches key at (some n) = totp key at == n || totp_previous key at == n

  -- `StaffTOTPDevice.verify_token`: what is no integer matches no code
  unfoldable pub verify_token : StaffTotpDevice → Text → ℕ → Bool
  verify_token device token at = code_matches device.key at (parse_int token)

  unfoldable pub confirm_mfa_setup : Staff → Text → Action StaffTotpDevice
  unfolding verify_token
  confirm_mfa_setup staff token = do
    rows ← reads (λ db. filter_rows (is_device_of staff.id) db.totp_devices)
    device ← the_row rows (accounts invalid_mfa_token)
    t ← now
    raise_if (not (verify_token device token t)) (accounts invalid_mfa_token)
    at ← now
    modify (save_confirmed device.id at)
    pure (confirm_device at device)

abbrev mfa_state : Bool → Fields
mfa_state b = field (codes "mfa_confirmed") (bool b) end

unfoldable pub reset_staff_mfa : Staff → Staff → Option RequestMeta → Action (Unit {0})
unfolding require_confirmed_mfa write_audit_log
reset_staff_mfa actor target_staff request = do
  raise_if (not (role_allows actor.role reset_staff_mfa_codename))
      (accounts insufficient_permission)
  require_confirmed_mfa actor
  had_confirmed_mfa ← reads (has_confirmed_mfa target_staff)
  modify (delete_devices target_staff.id)
  write_audit_log (codes "staff") (uuid_text actor.id) (codes "accounts.reset_staff_mfa")
      (codes "staff") (uuid_text target_staff.id) (mfa_state had_confirmed_mfa) (mfa_state false) []
      (client_ip request) (request_id request)
  pure tt
