-- ===== src/Errors/Details.antt =====
-- The texts of the business errors, in the errors.py of each module and in
-- src/common/api/idempotency.py: the names of the classes, which the problem details fall back to
-- as titles, and the details.
use be_py_eco.Prelude.{Text, codes}
use be_py_eco.Errors.{
  AccountsError, CatalogError, MediaError, TranslationError, LocalizationError, IdempotencyError,
  invalid_verification_token, invalid_credentials, invalid_refresh_token, session_not_found,
  customer_not_found, invalid_google_token, google_email_not_verified, email_already_taken,
  insufficient_permission, mfa_not_configured, invalid_mfa_token, reason_required, category_cycle,
  category_not_found, product_not_found, primary_category_not_in_categories, duplicate_attribute,
  duplicate_attribute_combination, hard_delete_not_allowed, incomplete_default_locale_content,
  no_sellable_variant, no_ready_media, upload_not_found, upload_not_ready, entry_not_found,
  supported_country_not_configured, unsupported_locale, unsupported_currency,
  idempotency_key_required, idempotency_key_conflict,
}

unfoldable pub accounts_class : AccountsError → Text
accounts_class invalid_verification_token = codes "InvalidVerificationTokenError"
accounts_class invalid_credentials = codes "InvalidCredentialsError"
accounts_class invalid_refresh_token = codes "InvalidRefreshTokenError"
accounts_class session_not_found = codes "SessionNotFoundError"
accounts_class customer_not_found = codes "CustomerNotFoundError"
accounts_class invalid_google_token = codes "InvalidGoogleTokenError"
accounts_class google_email_not_verified = codes "GoogleEmailNotVerifiedError"
accounts_class email_already_taken = codes "EmailAlreadyTakenError"
accounts_class insufficient_permission = codes "InsufficientPermissionError"
accounts_class mfa_not_configured = codes "MfaNotConfiguredError"
accounts_class invalid_mfa_token = codes "InvalidMfaTokenError"
accounts_class reason_required = codes "ReasonRequiredError"

unfoldable pub accounts_detail : AccountsError → Text
accounts_detail invalid_verification_token = codes "Invalid or expired verification token."
accounts_detail invalid_credentials = codes "Invalid email or password."
accounts_detail invalid_refresh_token = codes "Invalid, expired or already-used refresh token."
accounts_detail session_not_found = codes "Session not found."
accounts_detail customer_not_found = codes "Customer not found."
accounts_detail invalid_google_token = codes "Invalid or unverifiable Google ID token."
accounts_detail google_email_not_verified =
    codes "Google has not verified this email; it cannot be linked to an account."
accounts_detail email_already_taken = codes "This email is already used by another account."
accounts_detail insufficient_permission = codes "You do not have permission to perform this action."
accounts_detail mfa_not_configured =
    codes "Multi-factor authentication must be set up before performing this action."
accounts_detail invalid_mfa_token = codes "Invalid MFA token."
accounts_detail reason_required = codes "A reason is required for this action."

unfoldable pub catalog_class : CatalogError → Text
catalog_class category_cycle = codes "CategoryCycleError"
catalog_class category_not_found = codes "CategoryNotFoundError"
catalog_class product_not_found = codes "ProductNotFoundError"
catalog_class primary_category_not_in_categories = codes "PrimaryCategoryNotInCategoriesError"
catalog_class duplicate_attribute = codes "DuplicateAttributeError"
catalog_class duplicate_attribute_combination = codes "DuplicateAttributeCombinationError"
catalog_class hard_delete_not_allowed = codes "HardDeleteNotAllowedError"
catalog_class incomplete_default_locale_content = codes "IncompleteDefaultLocaleContentError"
catalog_class no_sellable_variant = codes "NoSellableVariantError"
catalog_class no_ready_media = codes "NoReadyMediaError"

unfoldable pub catalog_detail : CatalogError → Text
catalog_detail category_cycle = codes "This Category cannot be its own ancestor or descendant."
catalog_detail category_not_found = codes "Category not found."
catalog_detail product_not_found = codes "Product not found."
catalog_detail primary_category_not_in_categories =
    codes "A Product's primary Category must be one of its assigned Categories."
catalog_detail duplicate_attribute = codes "Only one value per Attribute is allowed on a Variant."
catalog_detail duplicate_attribute_combination =
    codes "Another Variant of this Product already has this Attribute combination."
catalog_detail hard_delete_not_allowed =
    codes
      "This record can never be hard-deleted, even if no Order references it yet. Archive it instead."
catalog_detail incomplete_default_locale_content =
    codes "The Product is missing required content in the default locale."
catalog_detail no_sellable_variant =
    codes "The Product must have at least one non-archived Variant to publish."
catalog_detail no_ready_media =
    codes "The Product must have at least one ready media asset to publish."

unfoldable pub media_class : MediaError → Text
media_class upload_not_found = codes "MediaUploadNotFoundError"
media_class upload_not_ready = codes "MediaUploadNotReadyError"

unfoldable pub media_detail : MediaError → Text
media_detail upload_not_found = codes "Media upload not found."
media_detail upload_not_ready = codes "Only a ready media upload can be attached to a Product."

unfoldable pub translation_class : TranslationError → Text
translation_class entry_not_found = codes "TranslationEntryNotFoundError"

unfoldable pub translation_detail : TranslationError → Text
translation_detail entry_not_found = codes "Translation entry not found."

unfoldable pub localization_class : LocalizationError → Text
localization_class supported_country_not_configured = codes "SupportedCountryNotConfiguredError"
localization_class unsupported_locale = codes "UnsupportedLocaleError"
localization_class unsupported_currency = codes "UnsupportedCurrencyError"

unfoldable pub localization_detail : LocalizationError → Text
localization_detail supported_country_not_configured =
    codes "No active Supported Country is configured."
localization_detail unsupported_locale =
    codes "This locale isn't supported by the active Supported Country."
localization_detail unsupported_currency =
    codes "This currency isn't supported by the active Supported Country."

unfoldable pub idempotency_class : IdempotencyError → Text
idempotency_class idempotency_key_required = codes "IdempotencyKeyRequiredError"
idempotency_class idempotency_key_conflict = codes "IdempotencyKeyConflictError"

unfoldable pub idempotency_detail : IdempotencyError → Text
idempotency_detail idempotency_key_required =
    codes "This action requires an Idempotency-Key header."
idempotency_detail idempotency_key_conflict =
    codes "This Idempotency-Key was already used with a different request body."
