-- ===== src/Protocol/V2/Control.antt =====
-- engine/internal/protocol/v2/control.go.
pub mod Types
pub mod Framing
pub mod Payloads
pub mod RoundTrip
