-- ===== src/Engine/Host.antt =====
-- engine/internal/engine/host.go.
pub mod Caps
pub mod Sending
pub mod Resume
pub mod Messages
