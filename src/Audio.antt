-- ===== src/Audio.antt =====
-- engine/internal/audio: the PCM format and the byte ring between device callbacks and consumers.
pub mod Format
pub mod Ring
