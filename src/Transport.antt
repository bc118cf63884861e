-- ===== src/Transport.antt =====
-- engine/internal/transport: both sides of the v1 protocol.
pub mod FrameTracker
pub mod Silence
pub mod UdpAudio
pub mod Sender
