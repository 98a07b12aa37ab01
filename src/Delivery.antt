-- ===== src/Delivery.antt =====
-- src/deliverer: the live positions of the deliverers, the life of a delivery job, and the
-- assignment of closed batches.
pub mod Geo
pub mod Location
pub mod Jobs
pub mod Assignment
pub mod Recovery
pub mod Profiles
