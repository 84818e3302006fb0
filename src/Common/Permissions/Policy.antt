-- ===== src/Common/Permissions/Policy.antt =====
-- Which role may do what, and when an object check is asked.
use be_py_eco.Prelude.{eq_text_iff, ◌≡◌, ◌↔◌, ◌⊎◌, Bool, true, Option, arith, Text, in_texts}
use be_py_eco.Common.Permissions.{
  master_admin, store_manager, create_staff_codename, disable_customer_codename,
  reset_staff_mfa_codename, has_permission, check_policy, passes,
}

-- A role holds a permission exactly when it is the Master Admin, with one of the three codenames,
-- or the Store Manager, with the one to disable customers.
has_permission_iff :
    (role codename : Text)
    → (has_permission role codename ≡ true) ↔ (
        ((role ≡ master_admin)
          × ((codename ≡ create_staff_codename)
              ⊎ (codename ≡ disable_customer_codename)
              ⊎ (codename ≡ reset_staff_mfa_codename)))
        ⊎ ((role ≡ store_manager) × (codename ≡ disable_customer_codename)))
unfolding has_permission in_texts
has_permission_iff role codename = ground (
  arith,
  eq_text_iff role master_admin,
  eq_text_iff role store_manager,
  eq_text_iff codename create_staff_codename,
  eq_text_iff codename disable_customer_codename,
  eq_text_iff codename reset_staff_mfa_codename,
)

-- A policy holds exactly when the role holds the codename and the object check, if there is one,
-- accepts the object.
pub check_policy_iff {ℓ} :
    {Obj : Type ℓ} (role codename : Text) (obj : Obj) (check : Option (Obj → Bool))
    → (check_policy role codename obj check ≡ true)
      ↔ ((has_permission role codename ≡ true) × (passes check obj ≡ true))
unfolding check_policy
check_policy_iff role codename obj check = ground arith
