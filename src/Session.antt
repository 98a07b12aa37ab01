-- ===== src/Session.antt =====
-- src/common/websocket and the handshakes of the three gateways: presence, what a client that
-- reconnects is told, and the replay of the events that it missed.
pub mod Presence
pub mod Replay
pub mod Reconnect
pub mod Connection
pub mod Handlers
pub mod Messages
pub mod Laws
mod Examples
