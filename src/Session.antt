-- ===== src/Session.antt =====
-- engine/internal/session.
pub mod Profile
pub mod Control
