-- ===== src/Vendor.antt =====
-- src/vendor/vendor.service.ts and src/admin/admin.service.ts: vendor profiles, their orders'
-- confirmation, and the roles that administrators give.
pub mod Profiles
pub mod Orders
pub mod Admin
