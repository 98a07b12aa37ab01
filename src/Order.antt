-- ===== src/Order.antt =====
-- src/order/order.service.ts: an order is created, marked ready and put into a delivery batch,
-- which closes when it is full or its time window ends.
pub mod Batching
pub mod Create
pub mod Closing
pub mod Ready
