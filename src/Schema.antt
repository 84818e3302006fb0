-- ===== src/Schema.antt =====
-- The database: one list of rows for each model. Ids are UUIDs read as numbers and times are
-- microseconds. Columns that no modelled code reads (`updated_at`, most `created_at`) are left
-- out; a foreign key is the id that it holds.
mod Values
mod Accounts
mod Catalog
mod Content
unfoldable pub use Values.*
unfoldable pub use Accounts.*
unfoldable pub use Catalog.*
unfoldable pub use Content.*
use be_py_eco.Prelude.{List}

pub record Database : Type 0 where
  pub customers : List Customer
  pub login_methods : List LoginMethod
  pub sessions : List Session
  pub verification_tokens : List VerificationToken
  pub staff : List Staff
  pub totp_devices : List StaffTotpDevice
  pub audit_log : List AuditLogEntry
  pub idempotency_records : List IdempotencyRecord
  pub outbox : List OutboxEvent
  pub categories : List Category
  pub products : List Product
  pub product_categories : List ProductCategory
  pub variants : List Variant
  pub variant_attribute_values : List VariantAttributeValue
  pub media_uploads : List MediaUpload
  pub translations : List TranslationEntry
  pub countries : List SupportedCountry
