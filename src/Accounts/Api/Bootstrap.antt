-- ===== src/Accounts/Api/Bootstrap.antt =====
-- The first Master Admin.
use be_py_eco.Prelude.{
  ◌≡◌, refl, true, false, ◌&&◌, Option, List, [], ◌∷◌, ◌++◌, arith, is_some, Text, eq_text,
  exists_row,
}
use be_py_eco.Errors.{accounts, mfa_not_configured}
use be_py_eco.Schema.{Database, Staff, StaffTotpDevice}
use be_py_eco.World.{World, Action, ok, err, Services, insert_staff}
use be_py_eco.Common.Idempotency.{Response}
use be_py_eco.Common.Http.{Framework, Request}
use be_py_eco.Common.Permissions.{role_allows, master_admin}
use be_py_eco.Accounts.Tokens.{normalize_email}
use be_py_eco.Accounts.Mfa.{has_confirmed_mfa, is_device_of}
use be_py_eco.Accounts.StaffActions.{sensitive_view}
use be_py_eco.Accounts.Api.Admin.{create_master_admin}

no_device :
    (s : Staff) (rows : List StaffTotpDevice)
    → exists_row (is_device_of s.id) rows ≡ false
    → exists_row (λ d. is_device_of s.id d && is_some d.confirmed_at) rows ≡ false
unfolding exists_row
no_device s [] h = refl
no_device s (d ∷ rows) h = ground (arith, no_device s rows)

without_device_refused :
    (sv : Services) (codename : Text) (s : Staff) (request : Request) (handler : Action Response)
    (w : World)
    → role_allows s.role codename ≡ true
    → has_confirmed_mfa s w.db ≡ false
    → sensitive_view sv codename s request handler w ≡ (err (accounts mfa_not_configured), w)
unfolding sensitive_view
without_device_refused sv codename s request handler w allowed unconfirmed = ground arith

confirmed_nowhere :
    (s : Staff) (db : Database)
    → exists_row (is_device_of s.id) db.totp_devices ≡ false
    → has_confirmed_mfa s db ≡ false
unfolding has_confirmed_mfa
confirmed_nowhere s db h = no_device s db.totp_devices h

module _ (sv : Services) (fw : Framework) where
  create_master_admin-row :
      (email prompted : Text) (password : Option Text) (w : World) (s : Staff)
      → (create_master_admin sv fw email password prompted w).0 ≡ ok s
      → (s.id ≡ w.ids 0)
        × (s.email ≡ normalize_email email)
        × (s.role ≡ master_admin)
        × (s.is_active ≡ true)
        × (exists_row (λ t. eq_text t.email (normalize_email email)) w.db.staff ≡ false)
        × ((create_master_admin sv fw email password prompted w).1.db
            ≡ record w.db { staff = w.db.staff ++ s ∷ [] })
  unfolding create_master_admin insert_staff
  create_master_admin-row email prompted password w s h =
      (ground arith, ground arith, ground arith, ground arith, ground arith, ground arith)

  -- A Master Admin that the command creates is active, under the normalised email, which no
  -- staff member had, and the one row that is added; if no device carries the new id, then
  -- a sensitive view that the role allows answers with mfa_not_configured and leaves the world
  -- as it is.
  pub create_master_admin-ok :
      (email prompted : Text) (password : Option Text) (w : World) (s : Staff) (codename : Text)
      (request : Request) (handler : Action Response)
      → role_allows s.role codename ≡ true
      → exists_row (is_device_of (w.ids 0)) w.db.totp_devices ≡ false
      → (create_master_admin sv fw email password prompted w).0 ≡ ok s
      → let w' = (create_master_admin sv fw email password prompted w).1 in
        (s.email ≡ normalize_email email)
        × (s.role ≡ master_admin)
        × (s.is_active ≡ true)
        × (exists_row (λ t. eq_text t.email (normalize_email email)) w.db.staff ≡ false)
        × (w'.db ≡ record w.db { staff = w.db.staff ++ s ∷ [] })
        × (sensitive_view sv codename s request handler w'
            ≡ (err (accounts mfa_not_configured), w'))
  create_master_admin-ok email prompted password w s codename request handler allowed none_yet h =
      let (own, mail, role, active, free, db) =
        create_master_admin-row email prompted password w s h in
      let w' = (create_master_admin sv fw email password prompted w).1 in
      let unconfirmed : has_confirmed_mfa s w'.db ≡ false =
        confirmed_nowhere s w'.db (rw (db, own) none_yet) in
      (
        mail,
        role,
        active,
        free,
        db,
        without_device_refused sv codename s request handler w' allowed unconfirmed,
      )
