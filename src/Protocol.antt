-- ===== src/Protocol.antt =====
-- engine/internal/protocol: the v1 stream and datagram formats, and the v2 media and control
-- formats.
pub mod Streams
pub mod V1
pub mod V2
