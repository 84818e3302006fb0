-- ===== src/Schema/Content.antt =====
-- The models of modules/media, modules/translation and modules/localization.
use be_py_eco.Prelude.{ℕ, Bool, Option, List, Text}

pub data MediaUploadStatus : Type 0 where
  pending ready rejected : MediaUploadStatus

pub record MediaUpload : Type 0 where
  pub id : ℕ
  pub status : MediaUploadStatus
  pub storage_key : Text
  pub declared_content_type : Text
  pub declared_size_bytes : ℕ
  pub rejection_reason : Text
  pub webp_key : Text
  pub avif_key : Text
  pub thumbnail_key : Text
  pub product : Option ℕ

-- The models that carry translated content; Django's `ContentType` of each.
pub data ContentType : Type 0 where
  category_type product_type brand_type attribute_type attribute_value_type : ContentType

pub record TranslationEntry : Type 0 where
  pub id : ℕ
  pub content_type : ContentType
  pub object_id : ℕ
  pub locale : Text
  pub field_name : Text
  pub value : Text
  pub is_ai_generated : Bool
  pub is_approved : Bool

pub record SupportedCountry : Type 0 where
  pub id : ℕ
  pub code : Text
  pub name : Text
  pub default_locale : Text
  pub allowed_locales : List Text
  pub allowed_currencies : List Text
  pub is_active : Bool
