-- ===== src/Transport/Sender/Handshakes.antt =====
-- engine/internal/transport/sender.go: `handshakeFromFormat` against the checks of the protocol.
use remoteau.Common.{ℕ, ◌≤◌, ◌≡◌, refl, ap, List, length, ok, arith}
use remoteau.Common.Int.{pos}
use remoteau.Audio.Format as Formats
use remoteau.Audio.Format.{Format}
use remoteau.Protocol.V1.Types as V1
use remoteau.Protocol.V1.Types.{Handshake}
use remoteau.Protocol.V1.Bounds.{InRange, validate_iff}
use remoteau.Transport.Sender.{handshake_of, handshake_from_format}

-- What the sender takes: positive numbers in the ranges of the protocol, and a name that fits.
pub record IsSendable (f : Format) (name : List ℕ) : Type 0 where
  pub rate : (n : ℕ) × (f.rate ≡ pos n) × (8000 ≤ n) × (n ≤ 192000)
  pub channels : (n : ℕ) × (f.channels ≡ pos n) × (1 ≤ n) × (n ≤ 8)
  pub frame_samples : (n : ℕ) × (f.frame_samples ≡ pos n) × (1 ≤ n) × (n ≤ 4096)
  pub short_name : length name ≤ 255

sendable-InRange : (f : Format) (name : List ℕ) → IsSendable f name → InRange (handshake_of f name)
sendable-InRange f name s =
    let (rate, r, r_low, r_high) = s.rate in
    let (channels, c, c_low, c_high) = s.channels in
    let (samples, n, n_low, n_high) = s.frame_samples in
    rw (r, c, n)
      (record {
        version = refl;
        flags = refl;
        format = refl;
        rate = omega arith;
        channels = omega arith;
        frame_samples = omega arith;
        name = s.short_name;
      })

-- A capture that the sender takes gives a handshake that every receiver's `Validate` lets through,
-- with the numbers of the format.
pub handshake_from_format_lem :
    (f : Format) (name : List ℕ)
    → IsSendable f name
    → (h : Handshake) × (handshake_from_format f name ≡ ok h)
      × (V1.validate h ≡ ok tt)
      × (pos h.sample_rate ≡ f.rate)
      × (pos h.channels ≡ f.channels)
      × (pos h.frame_samples ≡ f.frame_samples)
      × (h.name ≡ name)
unfolding handshake_from_format Formats.validate
handshake_from_format_lem f name s =
    let (rate, r, r_low, r_high) = s.rate in
    let (channels, c, c_low, c_high) = s.channels in
    let (samples, n, n_low, n_high) = s.frame_samples in
    let valid = (validate_iff (handshake_of f name)).1 (sendable-InRange f name s) in
    (
      handshake_of f name,
      rw valid (ground arith),
      valid,
      rw r (ap pos (omega arith)),
      rw c (ap pos (omega arith)),
      rw n (ap pos (omega arith)),
      refl,
    )
