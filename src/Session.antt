-- ===== src/Session.antt =====
-- The two binaries that hold a session, claudy-p2p/cmd/dav-client/main.go and
-- claudy-p2p/cmd/dav-owner/main.go, and the tunnel between them, claudy-p2p/internal/tunnel/tunnel.go.
pub mod Viewer
pub mod Owner
pub mod Streams
pub mod Admission
pub mod Tunnel
pub mod Proxy
pub mod Delivery
