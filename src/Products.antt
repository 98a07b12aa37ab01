-- ===== src/Products.antt =====
-- src/product/product.service.ts and its DTOs: the products of the vendors.
pub mod Filter
pub mod Ownership
pub mod Catalog
pub mod Editing
pub mod Media
pub mod Calls
pub mod Owners
pub mod Purge
pub mod Fresh
pub mod Coherent
pub mod Pages
pub mod Kept
pub mod Stale
mod Examples
