-- ===== src/Database.antt =====
-- The state of the backend, and Prisma as an interface with its documented behaviour.
pub mod Schema
pub mod Cache
pub mod RedisService
pub mod World
pub mod Rows
pub mod Rules
pub mod Sorted
pub mod Ascending
pub mod Prisma
pub mod Keeps
