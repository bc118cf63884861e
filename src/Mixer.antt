-- ===== src/Mixer.antt =====
-- engine/internal/mixer: the per-stream jitter buffer and the mixer of streams.
pub mod JitterBuffer
pub mod Samples
pub mod Streams
