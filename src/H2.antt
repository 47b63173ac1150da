-- ===== src/H2.antt =====
-- The WebSocket handshake over HTTP/2 and the stream behind it: h2.go.
pub mod StreamConn
pub mod Deadlines
pub mod Endings
pub mod Dial
pub mod Opening
pub mod Agreed
pub mod Settled
pub mod Upgrade
