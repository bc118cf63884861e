-- ===== src/Protocol/V1/Bounds.antt =====
-- engine/internal/protocol/protocol.go: what `Validate` lets through, and the sizes that follow.
use remoteau.Common.{ℕ, ◌*◌, ◌≤◌, ◌≡◌, length, ok, arith, ◌↔◌}
use remoteau.Protocol.V1.Types.{Handshake, expected_payload_bytes, validate, max_name_len}

-- The handshakes that the protocol allows.
pub record InRange (h : Handshake) : Type 0 where
  pub version : h.version ≡ 1
  pub flags : h.flags ≡ 0
  pub format : h.format ≡ 1
  pub rate : (8000 ≤ h.sample_rate) × (h.sample_rate ≤ 192000)
  pub channels : (1 ≤ h.channels) × (h.channels ≤ 8)
  pub frame_samples : (1 ≤ h.frame_samples) × (h.frame_samples ≤ 4096)
  pub name : length h.name ≤ max_name_len

product_bound : (a b : ℕ) → a ≤ 4096 → b ≤ 8 → a * b ≤ 32768
product_bound a b ha hb = grind arith

validate→InRange : (h : Handshake) → validate h ≡ ok tt → InRange h
unfolding validate
validate→InRange h e = ground arith

expected-InRange :
    (h : Handshake)
    → h.channels ≤ 8
    → h.frame_samples ≤ 4096
    → expected_payload_bytes h ≡ ok (h.frame_samples * h.channels * 2)
unfolding expected_payload_bytes
expected-InRange h hc hf =
    let small = product_bound h.frame_samples h.channels hf hc in ground (arith, small)

InRange→validate : (h : Handshake) → InRange h → validate h ≡ ok tt
unfolding validate
InRange→validate h r = ground (arith, expected-InRange h r.channels.1 r.frame_samples.1)

-- `Validate` accepts exactly the handshakes in range; its last check, of the payload size, refuses
-- none of them.
pub validate_iff : (h : Handshake) → (validate h ≡ ok tt) ↔ InRange h
validate_iff h = (validate→InRange h, InRange→validate h)

-- A handshake in range expects the bytes of its 16-bit samples, and at most 65536 of them: no
-- multiplication wraps.
pub expected_payload_bytes_lem :
    (h : Handshake)
    → InRange h
    → (expected_payload_bytes h ≡ ok (h.frame_samples * h.channels * 2))
      × (h.frame_samples * h.channels * 2 ≤ 65536)
expected_payload_bytes_lem h r = (
  expected-InRange h r.channels.1 r.frame_samples.1,
  omega (arith, product_bound h.frame_samples h.channels r.frame_samples.1 r.channels.1),
)
