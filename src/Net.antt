-- ===== src/Net.antt =====
-- The WebSocket transport (src/net/websocket.cpp).
pub mod Frame
pub mod RoundTrip
pub mod Masked
