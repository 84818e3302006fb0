-- ===== src/Common/Permissions.antt =====
-- src/common/auth/permissions.py
pub mod Policy
use be_py_eco.Prelude.{
  Bool, true, false, not, Option, none, some, List, [], ◌∷◌, if◌then◌else◌, Text, codes, eq_text,
  in_texts,
}
use be_py_eco.Errors.{failure, permission_denied}
use be_py_eco.World.{branch, Action, pure, raise}

abbrev pub master_admin : Text
master_admin = codes "master_admin"

abbrev pub store_manager : Text
store_manager = codes "store_manager"

abbrev pub order_staff : Text
order_staff = codes "order_staff"

abbrev pub create_staff_codename : Text
create_staff_codename = codes "accounts.create_staff"

abbrev pub disable_customer_codename : Text
disable_customer_codename = codes "accounts.disable_customer"

abbrev pub reset_staff_mfa_codename : Text
reset_staff_mfa_codename = codes "accounts.reset_staff_mfa"

-- `ROLE_PERMISSIONS.get(role, set())`
pub role_permissions : Text → List Text
role_permissions role =
    if eq_text role master_admin
    then create_staff_codename ∷ disable_customer_codename ∷ reset_staff_mfa_codename ∷ []
    else if eq_text role store_manager
    then disable_customer_codename ∷ []
    else []

unfoldable pub has_permission : Text → Text → Bool
unfolding role_permissions
has_permission role codename = in_texts codename (role_permissions role)

module _ {ℓ} {Obj : Type ℓ} where
  abbrev pub passes : Option (Obj → Bool) → Obj → Bool
  passes none obj = true
  passes (some object_check) obj = object_check obj

  unfoldable pub check_policy : Text → Text → Obj → Option (Obj → Bool) → Bool
  check_policy role codename obj object_check =
      if not (has_permission role codename) then false else passes object_check obj

  unfoldable pub require_permission : Text → Text → Obj → Option (Obj → Bool) → Action (Unit {0})
  unfolding check_policy
  require_permission role codename obj object_check =
      branch (not (check_policy role codename obj object_check)) (raise (failure permission_denied))
        (pure tt)

-- `check_policy(role=…, codename=…)`
abbrev pub role_allows : Text → Text → Bool
role_allows role codename = check_policy {0} role codename tt none
