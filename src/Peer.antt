-- ===== src/Peer.antt =====
-- Connections over a WebRTC DataChannel: claudy-p2p/internal/peer.
pub mod Conn
pub mod Timer
pub mod Link
pub mod Listener
pub mod Remote
