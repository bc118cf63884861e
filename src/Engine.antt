-- ===== src/Engine.antt =====
-- engine/internal/engine: the receiver side of a v2 stream, and the host's formats, resumption and
-- packets.
pub mod Media
pub mod QualityMode
pub mod Host
