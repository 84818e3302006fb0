-- ===== src/Server/Histories.antt =====
-- What holds after any history of requests to the server, tasks and commands.
use be_py_eco.Prelude.{ℕ, inl, inr, Option, List, [], ◌∷◌, Option-cases, Text, Unique}
use be_py_eco.Media.{
  ScanResult, clean, infected, unreachable, Bytes, MediaServices, ValidationResult, valid, invalid,
  read_upload, read_file, save_file, reject_upload, finish_upload, after_scan, after_validation,
  process_pending, validate_upload,
}
use be_py_eco.Localization.{seed_supported_countries}
use be_py_eco.Accounts.Api.Admin.{create_master_admin}
use be_py_eco.Server.Events.{
  Event, requested, upload_created, countries_seeded, master_admin_wanted, Platform, happen,
  run_events,
}
use be_py_eco.Schema.{Database, MediaUpload}
use be_py_eco.World.{World, Services, clash_staff}
use be_py_eco.Common.Http.{Framework}
use be_py_eco.Accounts.UniqueEmails.{UniqueEmails}
use be_py_eco.Accounts.Intact.{Intact, Safe, Extends-self, product_ids, customer_ids}
use be_py_eco.Server.Safe.{request_rules, serve_request-Safe}

read_upload-Safe : (ms : MediaServices) (key : Text) → Safe (read_upload ms key)
unfolding Safe read_upload
read_upload-Safe ms key start w u = elim (Option-cases (read_file key w.files)) [
  | inl gone ↦ rw gone u
  | inr (bytes, found) ↦ rw found u
]

save_file-Safe :
    (ms : MediaServices) (name : Text) (content : Bytes) → Safe (save_file ms name content)
unfolding Safe save_file
save_file-Safe ms name content start w u = u

module _ (ms : MediaServices) where
  reject_upload-Safe : (m : MediaUpload) (reason : Text) → Safe (reject_upload m reason)
  unfolding reject_upload
  reject_upload-Safe m reason = search request_rules depth 20

  finish_upload-Safe : (m : MediaUpload) (bytes : Bytes) → Safe (finish_upload ms m bytes)
  unfolding finish_upload
  finish_upload-Safe m bytes = search (request_rules, save_file-Safe) depth 30

  after_scan-Safe :
      (m : MediaUpload) (bytes : Bytes) (found : ScanResult) → Safe (after_scan ms m bytes found)
  unfolding after_scan
  after_scan-Safe m bytes clean = finish_upload-Safe m bytes
  after_scan-Safe m bytes (infected signature) = search reject_upload-Safe
  after_scan-Safe m bytes unreachable = search request_rules

  after_validation-Safe :
      (m : MediaUpload) (bytes : Bytes) (v : ValidationResult)
      → Safe (after_validation ms m bytes v)
  unfolding after_validation
  after_validation-Safe m bytes valid = search after_scan-Safe
  after_validation-Safe m bytes (invalid reason) = search reject_upload-Safe

  validate_upload-Safe : (id : ℕ) → Safe (validate_upload ms id)
  unfolding validate_upload process_pending
  validate_upload-Safe id = search (request_rules, read_upload-Safe, after_validation-Safe) depth 30

seed-Safe : Safe seed_supported_countries
unfolding seed_supported_countries
seed-Safe = search request_rules depth 20

create_master_admin-Safe :
    (sv : Services) (fw : Framework) (email : Text) (password : Option Text) (prompted : Text)
    → Safe (create_master_admin sv fw email password prompted)
unfolding create_master_admin
create_master_admin-Safe sv fw email password prompted = search request_rules depth 30

module _ (platform : Platform) where
  open platform use {
    services, framework, framework_errors, storage, media_services, uuid_parser, get_ident,
  }

  happen-Intact :
      (event : Event) (start : Database) (w : World)
      → Intact start w.db
      → Intact start (happen platform event w).db
  unfolding happen Safe
  happen-Intact (requested incoming) start w u =
      serve_request-Safe services framework get_ident storage framework_errors uuid_parser incoming
        start w u
  happen-Intact (upload_created id) start w u = validate_upload-Safe media_services id start w u
  happen-Intact countries_seeded start w u = seed-Safe start w u
  happen-Intact (master_admin_wanted email password prompted) start w u =
      create_master_admin-Safe services framework email password prompted start w u

  -- After any history of requests to the server, by whomever and however they end, of runs of the
  -- upload task and of management commands, no two customers and no two staff members share an
  -- email or an id, if none did before; of the customers and the products that were there none is
  -- gone, and the staff, the audit log and the outbox are what they were, with what was added
  -- behind.
  pub run_events-Intact :
      (history : List Event) (w : World)
      → UniqueEmails w.db
      → Unique clash_staff w.db.staff
      → Intact w.db (run_events platform history w).db
  unfolding run_events
  run_events-Intact [] w customers staff = record {
    customers_apart = customers;
    staff_apart = staff;
    customers_kept = Extends-self (customer_ids w.db.customers);
    products_kept = Extends-self (product_ids w.db.products);
    staff_kept = Extends-self w.db.staff;
    audit_log_kept = Extends-self w.db.audit_log;
    outbox_kept = Extends-self w.db.outbox;
  }
  run_events-Intact (event ∷ earlier) w customers staff =
      happen-Intact event w.db (run_events platform earlier w)
        (run_events-Intact earlier w customers staff)
