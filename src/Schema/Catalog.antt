-- ===== src/Schema/Catalog.antt =====
-- The models of modules/catalog.
use be_py_eco.Prelude.{ℕ, Bool, Option, Text}

pub record Category : Type 0 where
  pub id : ℕ
  pub parent : Option ℕ

pub data ProductStatus : Type 0 where
  draft active inactive archived : ProductStatus

pub record Product : Type 0 where
  pub id : ℕ
  pub created_at : ℕ
  pub status : ProductStatus
  pub brand : Option ℕ
  pub primary_category : ℕ

pub record ProductCategory : Type 0 where
  pub id : ℕ
  pub product : ℕ
  pub category : ℕ

pub record AttributeValue : Type 0 where
  pub id : ℕ
  pub attribute : ℕ
  pub code : Text

pub record Variant : Type 0 where
  pub id : ℕ
  pub created_at : ℕ
  pub product : ℕ
  pub sku : Text
  pub barcode : Option Text
  pub base_price_vnd : ℕ
  pub weight_grams : ℕ
  pub is_archived : Bool
  pub attribute_combination_key : Text

pub record VariantAttributeValue : Type 0 where
  pub id : ℕ
  pub variant : ℕ
  pub attribute : ℕ
  pub attribute_value : ℕ
