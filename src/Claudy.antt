-- ===== src/Claudy.antt =====
-- The local web service: claudy-p2p/cmd/claudy/main.go and files.go.
pub mod Subprocess
pub mod App
pub mod Files
pub mod Mounts
pub mod Waiting
pub mod Views
pub mod Picker
pub mod Rooms
