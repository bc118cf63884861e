-- ===== src/Relay.antt =====
-- engine/internal/relay: the envelopes of relayed payloads, and which phone is spliced to which host.
pub mod Sealer
pub mod Registration
