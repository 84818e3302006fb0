-- ===== src/Accounts/StaffActions/Disable.antt =====
-- Disabling a customer.
use be_py_eco.Common.Authentication.{get_user}
use be_py_eco.Audit.{redact}
use be_py_eco.Accounts.Sessions.{revoke, is_open_session}
use be_py_eco.Prelude.{
  ℕ, ◌<◌, ◌≡◌, refl, ◌≢◌, true, false, ◌&&◌, Option, none, some, List, [], ◌∷◌, ◌++◌, arith, ◌==◌,
  ==_iff, Text, codes, eq_text, is_empty, strip, length, exists_row, first_row, update_rows,
}
use be_py_eco.Prelude.Queries.{filter-one-holds, missing, one, many, Found-cases}
use be_py_eco.Errors.{
  data_error, accounts, customer_not_found, insufficient_permission, mfa_not_configured,
  reason_required,
}
use be_py_eco.Schema.{Customer, Database, AuditLogEntry, Staff}
use be_py_eco.World.{ok, World, err}
use be_py_eco.Common.Render.{uuid_text}
use be_py_eco.Common.Permissions.{role_allows, disable_customer_codename}
use be_py_eco.Common.RequestContext.{RequestMeta, client_ip, request_id}
use be_py_eco.Accounts.Tokens.{customer_by_id}
use be_py_eco.Accounts.Mfa.{has_confirmed_mfa}
use be_py_eco.Accounts.StaffActions.{failure, deactivate, active_state, disable_customer}

not_empty_of_length : (t : Text) → 0 < length t → is_empty t ≡ false
not_empty_of_length [] h = absurd (omega arith)
not_empty_of_length (c ∷ t) h = refl

no_active_row :
    (id : ℕ) (rows : List Customer)
    → first_row (λ c. c.id == id && c.is_active) (update_rows (λ r. r.id == id) deactivate rows)
      ≡ none
unfolding first_row update_rows
no_active_row id [] = refl
no_active_row id (c ∷ rows) = ground (arith, no_active_row id rows)

module _ (actor : Staff) (customer_id : ℕ) (reason : Text) (request : Option RequestMeta)
    (w : World) where
  -- Without the permission, a confirmed device or a reason, and for an unknown customer, the
  -- action is refused with its own error and changes nothing.
  pub disable_customer-refused :
      ((role_allows actor.role disable_customer_codename ≡ false)
        → disable_customer actor customer_id reason request w
          ≡ (err (accounts insufficient_permission), w))
      × (role_allows actor.role disable_customer_codename ≡ true
          → has_confirmed_mfa actor w.db ≡ false
          → disable_customer actor customer_id reason request w
            ≡ (err (accounts mfa_not_configured), w))
      × (role_allows actor.role disable_customer_codename ≡ true
          → has_confirmed_mfa actor w.db ≡ true
          → strip reason ≡ []
          → disable_customer actor customer_id reason request w
            ≡ (err (accounts reason_required), w))
      × (role_allows actor.role disable_customer_codename ≡ true
          → has_confirmed_mfa actor w.db ≡ true
          → strip reason ≢ []
          → customer_by_id customer_id w.db ≡ []
          → disable_customer actor customer_id reason request w
            ≡ (err (accounts customer_not_found), w))
  unfolding disable_customer
  disable_customer-refused = ground arith

  -- the database once the customer is inactive and the sessions are closed
  pub disabled_db : Customer → Database
  disabled_db c = record w.db {
    customers = update_rows (λ r. r.id == c.id) deactivate w.db.customers;
    sessions = update_rows (is_open_session c.id) (revoke (w.clock 0)) w.db.sessions;
  }

  pub disable_entry : Customer → AuditLogEntry
  disable_entry c = record {
    id = w.ids 0;
    actor_type = codes "staff";
    actor_id = uuid_text actor.id;
    action = disable_customer_codename;
    resource_type = codes "customer";
    resource_id = uuid_text c.id;
    before = redact (active_state true);
    after = redact (active_state false);
    reason = strip reason;
    ip_address = client_ip request;
    request_id = request_id request;
  }

  -- When it succeeds, the actor had the permission and a confirmed device and gave a reason; the
  -- customer is inactive, the customer's open sessions are revoked, one audit entry with the
  -- stripped reason is added, and nothing else in the database changes.
  pub disable_customer-ok :
      (c' : Customer)
      → (disable_customer actor customer_id reason request w).0 ≡ ok c'
      → (c : Customer) × (customer_by_id customer_id w.db ≡ c ∷ [])
        × (c' ≡ deactivate c)
        × (role_allows actor.role disable_customer_codename ≡ true)
        × (has_confirmed_mfa actor w.db ≡ true)
        × (strip reason ≢ [])
        × ((disable_customer actor customer_id reason request w).1.db
            ≡ record (disabled_db c) { audit_log = w.db.audit_log ++ disable_entry c ∷ [] })
  unfolding disable_customer disabled_db disable_entry
  disable_customer-ok c' h = elim (Found-cases (customer_by_id customer_id w.db)) [
    | missing e ↦ absurd (ground arith)
    | many a b rest e ↦ absurd (ground arith)
    | one c e ↦ (c, e, ground arith, ground arith, ground arith, ground arith, ground arith)
  ]

  -- With a reason of more than 255 characters, the other guards met and a fresh entry id, the audit
  -- entry is refused by its column, and the customer stays disabled with the sessions revoked and
  -- no entry.
  pub disable_customer_unaudited :
      (c : Customer)
      → role_allows actor.role disable_customer_codename ≡ true
      → has_confirmed_mfa actor w.db ≡ true
      → customer_by_id customer_id w.db ≡ c ∷ []
      → exists_row (λ e. w.ids 0 == e.id) w.db.audit_log ≡ false
      → 255 < length (strip reason)
      → ((disable_customer actor customer_id reason request w).0 ≡ err (failure data_error))
        × ((disable_customer actor customer_id reason request w).1.db ≡ disabled_db c)
  unfolding disable_customer disabled_db
  disable_customer_unaudited c allowed confirmed found fresh long =
      ground (arith, not_empty_of_length (strip reason))

  -- After a customer was disabled no access token of that customer is accepted.
  pub disable_customer-get_user :
      (c' : Customer)
      → (disable_customer actor customer_id reason request w).0 ≡ ok c'
      → get_user
          (some (codes "customer"))
          customer_id
          (disable_customer actor customer_id reason request w).1.db
        ≡ none
  unfolding get_user disabled_db eq_text
  disable_customer-get_user c' h =
      let (c, e, _, _, _, _, d) = disable_customer-ok c' h in
      let same : c.id ≡ customer_id =
        (==_iff c.id customer_id).0
          (filter-one-holds (λ (r : Customer). r.id == customer_id) w.db.customers c e) in
      rw d (rw same (rw (no_active_row customer_id w.db.customers)))
