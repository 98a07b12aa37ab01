-- ===== src/Http.antt =====
-- The HTTP interface: src/*/*.controller.ts with the guards and the envelopes of the answers. A
-- handler is an action over the user of the request's token, if it has a valid one.
pub mod Guards
pub mod Catalog
pub mod Shops
pub mod Admin
pub mod Accounts
pub mod Deliveries
pub mod Requests
pub mod Reads
pub mod Guests
pub mod Goods
pub mod Untouched
pub mod Powers
pub mod Plain
pub mod Profiles
pub mod Grants
pub mod Decided
pub mod Accepted
pub mod Shown
mod Examples
