-- ===== src/Discovery.antt =====
-- engine/internal/discovery: the packets by which devices find one another, and who answers them.
pub mod Message
pub mod Ports
pub mod Responder
