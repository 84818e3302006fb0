-- ===== src/Accounts/StaffActions/Guards.antt =====
-- Who gets to a sensitive action.
use be_py_eco.Prelude.{ℕ, ◌≡◌, true, false, ◌&&◌, Option, arith, if◌then◌else◌, Text}
use be_py_eco.Errors.{accounts, insufficient_permission, mfa_not_configured}
use be_py_eco.Schema.{Staff, Customer}
use be_py_eco.World.{World, Action, ok, err, Services}
use be_py_eco.Common.Permissions.{
  role_allows, create_staff_codename, disable_customer_codename, reset_staff_mfa_codename,
}
use be_py_eco.Common.RequestContext.{RequestMeta}
use be_py_eco.Common.Idempotency.{Response}
use be_py_eco.Accounts.Mfa.{has_confirmed_mfa, reset_staff_mfa}
use be_py_eco.Accounts.StaffActions.{
  NewStaff, create_staff, disable_customer, Request, sensitive_view,
}

-- the actor's role has the permission and the actor has confirmed a device
abbrev pub MayAct : Staff → Text → World → Type 0
MayAct actor codename w =
    (role_allows actor.role codename ≡ true) × (has_confirmed_mfa actor w.db ≡ true)

module _ (sv : Services) where
  create_staff-MayAct :
      (actor staff : Staff) (form : NewStaff) (request : Option RequestMeta) (w : World)
      → (create_staff sv actor form request w).0 ≡ ok staff
      → MayAct actor create_staff_codename w
  unfolding create_staff
  create_staff-MayAct actor staff form request w h = ground arith

  disable_customer-MayAct :
      (actor : Staff) (customer : Customer) (id : ℕ) (reason : Text) (request : Option RequestMeta)
      (w : World)
      → (disable_customer actor id reason request w).0 ≡ ok customer
      → MayAct actor disable_customer_codename w
  unfolding disable_customer
  disable_customer-MayAct actor customer id reason request w h = ground arith

  reset_staff_mfa-MayAct :
      (actor target : Staff) (request : Option RequestMeta) (w : World)
      → (reset_staff_mfa actor target request w).0 ≡ ok tt
      → MayAct actor reset_staff_mfa_codename w
  unfolding reset_staff_mfa
  reset_staff_mfa-MayAct actor target request w h = ground arith

  -- Creating staff, disabling a customer and resetting a device each end well only for an actor
  -- whose role has the action's permission and who has a confirmed device.
  sensitive_actions_guarded :
      (actor target staff : Staff) (form : NewStaff) (customer : Customer) (id : ℕ) (reason : Text)
      (request : Option RequestMeta) (w : World)
      → (create_staff sv actor form request w).0 ≡ ok staff
      → (disable_customer actor id reason request w).0 ≡ ok customer
      → (reset_staff_mfa actor target request w).0 ≡ ok tt
      → MayAct actor create_staff_codename w
        × MayAct actor disable_customer_codename w
        × MayAct actor reset_staff_mfa_codename w
  sensitive_actions_guarded actor target staff form customer id reason request w made disabled
        reset =
      (
        create_staff-MayAct actor staff form request w made,
        disable_customer-MayAct actor customer id reason request w disabled,
        reset_staff_mfa-MayAct actor target request w reset,
      )

  -- A sensitive view answers an actor without the permission, or without a confirmed device, with
  -- the error for it, and leaves the world as it is: nothing is replayed and the handler is not run.
  sensitive_view-refused :
      (codename : Text) (actor : Staff) (request : Request) (handler : Action Response) (w : World)
      → (role_allows actor.role codename && has_confirmed_mfa actor w.db) ≡ false
      → sensitive_view sv codename actor request handler w ≡ (
        err (
            accounts (
              if role_allows actor.role codename
              then mfa_not_configured
              else insufficient_permission)),
        w,
      )
  unfolding sensitive_view
  sensitive_view-refused codename actor request handler w h = ground arith
