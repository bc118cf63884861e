-- ===== src/Protocol/V2.antt =====
-- engine/internal/protocol/v2: the media datagram (packet.go) and the control messages
-- (control.go).
pub mod Media
pub mod Control
mod Tests
