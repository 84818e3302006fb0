-- ===== src/Catalog.antt =====
-- src/modules/catalog: the category tree, products, variants and their attributes, and the
-- storefront's reads.
pub mod CategoryTree
pub mod Products
pub mod Attributes
pub mod Publish
pub mod Storefront
pub mod Api
