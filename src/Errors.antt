-- ===== src/Errors.antt =====
-- The error classes of the modules (`errors.py` of accounts, catalog, media, translation and
-- localization, and common/api/idempotency.py), each with its HTTP status and its stable code,
-- and what Python, Django and the database raise besides them.
pub mod Details
use be_py_eco.Prelude.{ℕ, Option, none, some, Text, codes}

-- modules/accounts/errors.py
pub data AccountsError : Type 0 where
  invalid_verification_token invalid_credentials invalid_refresh_token session_not_found
        customer_not_found invalid_google_token google_email_not_verified email_already_taken
        insufficient_permission mfa_not_configured invalid_mfa_token reason_required :
      AccountsError

-- modules/catalog/errors.py
pub data CatalogError : Type 0 where
  category_cycle category_not_found product_not_found primary_category_not_in_categories
        duplicate_attribute duplicate_attribute_combination hard_delete_not_allowed
        incomplete_default_locale_content no_sellable_variant no_ready_media :
      CatalogError

-- modules/media/errors.py
pub data MediaError : Type 0 where
  upload_not_found upload_not_ready : MediaError

-- modules/translation/errors.py
pub data TranslationError : Type 0 where
  entry_not_found : TranslationError

-- modules/localization/errors.py
pub data LocalizationError : Type 0 where
  supported_country_not_configured unsupported_locale unsupported_currency : LocalizationError

-- common/api/idempotency.py
pub data IdempotencyError : Type 0 where
  idempotency_key_required idempotency_key_conflict : IdempotencyError

-- What is raised and is no business error: by the database (a unique constraint, a value that is
-- too long for its column), by `require_permission`, by `objects.get`, by a failed lookup, by the
-- storage, by the mail server, by the scanner, by Python on a value of another class than expected, by a management command.
pub data Failure : Type 0 where
  permission_denied integrity_error data_error does_not_exist multiple_objects_returned index_error
        overflow_error storage_error smtp_error connection_error attribute_error value_error
        key_error command_error :
      Failure

-- `validation`, `not_authenticated`, `token_not_valid`, `permission_refused` and `throttled`, with the
-- seconds to wait, are the framework's exceptions.
pub data Error : Type 0 where
  accounts : AccountsError → Error
  catalog : CatalogError → Error
  media : MediaError → Error
  translation : TranslationError → Error
  localization : LocalizationError → Error
  idempotency : IdempotencyError → Error
  validation : Error
  not_authenticated : Error
  token_not_valid : Error
  permission_refused : Error
  throttled : Option ℕ → Error
  failure : Failure → Error

unfoldable pub accounts_status : AccountsError → ℕ
accounts_status invalid_verification_token = 400
accounts_status invalid_credentials = 401
accounts_status invalid_refresh_token = 401
accounts_status session_not_found = 404
accounts_status customer_not_found = 404
accounts_status invalid_google_token = 401
accounts_status google_email_not_verified = 401
accounts_status email_already_taken = 409
accounts_status insufficient_permission = 403
accounts_status mfa_not_configured = 403
accounts_status invalid_mfa_token = 400
accounts_status reason_required = 400

unfoldable pub catalog_status : CatalogError → ℕ
catalog_status category_cycle = 400
catalog_status category_not_found = 404
catalog_status product_not_found = 404
catalog_status primary_category_not_in_categories = 400
catalog_status duplicate_attribute = 400
catalog_status duplicate_attribute_combination = 409
catalog_status hard_delete_not_allowed = 409
catalog_status incomplete_default_locale_content = 409
catalog_status no_sellable_variant = 409
catalog_status no_ready_media = 409

unfoldable pub media_status : MediaError → ℕ
media_status upload_not_found = 404
media_status upload_not_ready = 400

unfoldable pub translation_status : TranslationError → ℕ
translation_status entry_not_found = 404

unfoldable pub localization_status : LocalizationError → ℕ
localization_status supported_country_not_configured = 503
localization_status unsupported_locale = 400
localization_status unsupported_currency = 400

unfoldable pub idempotency_status : IdempotencyError → ℕ
idempotency_status idempotency_key_required = 400
idempotency_status idempotency_key_conflict = 409

unfoldable pub accounts_code : AccountsError → Text
accounts_code invalid_verification_token = codes "accounts.invalid_verification_token"
accounts_code invalid_credentials = codes "accounts.invalid_credentials"
accounts_code invalid_refresh_token = codes "accounts.invalid_refresh_token"
accounts_code session_not_found = codes "accounts.session_not_found"
accounts_code customer_not_found = codes "accounts.customer_not_found"
accounts_code invalid_google_token = codes "accounts.invalid_google_token"
accounts_code google_email_not_verified = codes "accounts.google_email_not_verified"
accounts_code email_already_taken = codes "accounts.email_already_taken"
accounts_code insufficient_permission = codes "accounts.insufficient_permission"
accounts_code mfa_not_configured = codes "accounts.mfa_not_configured"
accounts_code invalid_mfa_token = codes "accounts.invalid_mfa_token"
accounts_code reason_required = codes "accounts.reason_required"

unfoldable pub catalog_code : CatalogError → Text
catalog_code category_cycle = codes "catalog.category_cycle"
catalog_code category_not_found = codes "catalog.category_not_found"
catalog_code product_not_found = codes "catalog.product_not_found"
catalog_code primary_category_not_in_categories = codes "catalog.primary_category_not_in_categories"
catalog_code duplicate_attribute = codes "catalog.duplicate_attribute"
catalog_code duplicate_attribute_combination = codes "catalog.duplicate_attribute_combination"
catalog_code hard_delete_not_allowed = codes "catalog.hard_delete_not_allowed"
catalog_code incomplete_default_locale_content = codes "catalog.incomplete_default_locale_content"
catalog_code no_sellable_variant = codes "catalog.no_sellable_variant"
catalog_code no_ready_media = codes "catalog.no_ready_media"

unfoldable pub media_code : MediaError → Text
media_code upload_not_found = codes "media.upload_not_found"
media_code upload_not_ready = codes "media.upload_not_ready"

unfoldable pub translation_code : TranslationError → Text
translation_code entry_not_found = codes "translation.entry_not_found"

unfoldable pub localization_code : LocalizationError → Text
localization_code supported_country_not_configured =
    codes "localization.supported_country_not_configured"
localization_code unsupported_locale = codes "localization.unsupported_locale"
localization_code unsupported_currency = codes "localization.unsupported_currency"

unfoldable pub idempotency_code : IdempotencyError → Text
idempotency_code idempotency_key_required = codes "common.idempotency_key_required"
idempotency_code idempotency_key_conflict = codes "common.idempotency_key_conflict"

-- The status and code of an `APIException`; `none` for what the exception handler leaves to
-- Django, which answers 500.
unfoldable pub status_code : Error → Option ℕ
unfolding accounts_status catalog_status media_status translation_status localization_status
    idempotency_status
status_code (accounts e) = some (accounts_status e)
status_code (catalog e) = some (catalog_status e)
status_code (media e) = some (media_status e)
status_code (translation e) = some (translation_status e)
status_code (localization e) = some (localization_status e)
status_code (idempotency e) = some (idempotency_status e)
status_code validation = some 400
status_code not_authenticated = some 401
status_code token_not_valid = some 401
status_code permission_refused = some 403
status_code (throttled _) = some 429
status_code (failure _) = none

unfoldable pub default_code : Error → Option Text
unfolding accounts_code catalog_code media_code translation_code localization_code idempotency_code
default_code (accounts e) = some (accounts_code e)
default_code (catalog e) = some (catalog_code e)
default_code (media e) = some (media_code e)
default_code (translation e) = some (translation_code e)
default_code (localization e) = some (localization_code e)
default_code (idempotency e) = some (idempotency_code e)
default_code validation = some (codes "invalid")
default_code not_authenticated = some (codes "not_authenticated")
default_code token_not_valid = some (codes "token_not_valid")
default_code permission_refused = some (codes "permission_denied")
default_code (throttled _) = some (codes "throttled")
default_code (failure _) = none
