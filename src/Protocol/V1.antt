-- ===== src/Protocol/V1.antt =====
-- engine/internal/protocol/protocol.go and udp.go.
pub mod Types
pub mod Stream
pub mod Udp
pub mod RoundTrip
pub mod UdpRoundTrip
pub mod Bounds
mod Tests
