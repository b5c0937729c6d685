-- ===== src/Ws.antt =====
-- src/modules/ws.rs: the WebSocket client.
pub mod Types
pub mod Frame
pub mod Client
pub mod Handshake
