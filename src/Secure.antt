-- ===== src/Secure.antt =====
-- The Noise transport of claudy-p2p/internal/secure/noise.go.
pub mod Frame
pub mod Channel
pub mod Handshake
