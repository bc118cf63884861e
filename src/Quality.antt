-- ===== src/Quality.antt =====
-- engine/internal/quality.
pub mod Controller
