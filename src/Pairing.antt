-- ===== src/Pairing.antt =====
-- engine/internal/pairing: the exchange that pairs two devices by a code.
pub mod Exchange
