-- ===== src/Protocol/V1/RoundTrip.antt =====
-- engine/internal/protocol: the readers on what the writers produce.
use remoteau.Common.{
  ℕ, ◌%◌, ◌^◌, ◌≤◌, ◌<◌, ◌≡◌, sym, ap, ◌∙◌, false, List, ◌++◌, length, copy, ltb, ==_refl, ok,
  arith, inl, inr, Result-cases,
}
use remoteau.Common.Bytes.{from_be-be16, from_be-be32, from_be-be64}
use remoteau.Protocol.Streams.{read_full-append}
use remoteau.Protocol.V1.Types.{
  Handshake, Frame, expected_payload_bytes, validate, with_version, with_type, max_payload_bytes,
}
use remoteau.Protocol.V1.Stream.{
  write_handshake, read_handshake, write_frame, read_frame, handshake_bytes, frame_bytes, room_for,
}
use remoteau.Protocol.V1.Bounds.{validate_iff}

read_handshake-handshake_bytes :
    (h : Handshake) (rest : List ℕ)
    → validate h ≡ ok tt
    → read_handshake (handshake_bytes h ++ rest) ≡ ok (h, rest)
unfolding read_handshake
read_handshake-handshake_bytes h rest valid =
    let r = (validate_iff h).0 valid in
    let len : length h.name % 2 ^ 16 ≡ length h.name = omega arith in
    let small : ltb 255 (length h.name) ≡ false = ground arith in
    let rate = from_be-be32 h.sample_rate (omega arith) in
    let samples = from_be-be16 h.frame_samples (omega arith) in
    rw (len, from_be-be16 (length h.name) (omega arith), small, read_full-append h.name rest)
      (rw (rate, samples, valid))

-- What `WriteHandshake` writes, `ReadHandshake` reads back, and it leaves the rest of the stream. A
-- version of 0 is read as 1.
pub read_handshake-write_handshake :
    (h : Handshake) (bytes rest : List ℕ)
    → write_handshake h ≡ ok bytes
    → read_handshake (bytes ++ rest) ≡ ok (with_version h, rest)
unfolding write_handshake
read_handshake-write_handshake h bytes rest e = elim (Result-cases (validate (with_version h))) [
  | inl (u, valid) ↦
      let wrote : handshake_bytes (with_version h) ≡ bytes = ground arith in
      rw (← wrote) (read_handshake-handshake_bytes (with_version h) rest valid)
  | inr (x, refused) ↦ absurd (cc)
]

-- The fields of a frame that its Go types hold.
pub record FrameInRange (f : Frame) : Type 0 where
  pub type : f.type < 2 ^ 8
  pub seq : f.seq < 2 ^ 64
  pub capture_frame : f.capture_frame < 2 ^ 64

read_frame-frame_bytes :
    (h : Handshake) (f : Frame) (rest buf : List ℕ)
    → FrameInRange f
    → f.type ≡ 1
    → length f.payload ≤ max_payload_bytes
    → expected_payload_bytes h ≡ ok (length f.payload)
    → read_frame (frame_bytes f ++ rest) h buf
      ≡ (ok (f, rest), copy (room_for buf (length f.payload)) f.payload)
unfolding read_frame
read_frame-frame_bytes h f rest buf r typ size expected =
    let len : length f.payload % 2 ^ 32 ≡ length f.payload = omega arith in
    let small : ltb 262144 (length f.payload) ≡ false = ground arith in
    rw (
      expected,
      len,
      from_be-be32 (length f.payload) (omega arith),
      typ,
      small,
      ==_refl (length f.payload),
      read_full-append f.payload rest,
      from_be-be64 f.seq r.seq,
      from_be-be64 f.capture_frame r.capture_frame,
    )

expected-le-max : (h : Handshake) (n : ℕ) → expected_payload_bytes h ≡ ok n → n ≤ max_payload_bytes
unfolding expected_payload_bytes
expected-le-max h n e = ground arith

pub with_type-FrameInRange : (f : Frame) → FrameInRange f → FrameInRange (with_type f)
unfolding with_type
with_type-FrameInRange f r = ground arith

write_frame-inv :
    (h : Handshake) (f : Frame) (n : ℕ) (bytes : List ℕ)
    → expected_payload_bytes h ≡ ok n
    → write_frame h f ≡ ok bytes
    → ((with_type f).type ≡ 1)
      × (length (with_type f).payload ≡ n)
      × (frame_bytes (with_type f) ≡ bytes)
unfolding write_frame
write_frame-inv h f n bytes expected e = ground arith

-- What `WriteFrame` writes under a valid handshake, `ReadFrame` reads back under the same handshake:
-- the frame with its type filled in, the rest of the stream, and the payload in the caller's buffer.
pub read_frame-write_frame :
    (h : Handshake) (f : Frame) (bytes rest buf : List ℕ)
    → FrameInRange f
    → write_frame h f ≡ ok bytes
    → read_frame (bytes ++ rest) h buf
      ≡ (ok (with_type f, rest), copy (room_for buf (length f.payload)) f.payload)
unfolding write_frame
read_frame-write_frame h f bytes rest buf r e = elim (Result-cases (expected_payload_bytes h)) [
  | inl (n, expected) ↦
      let (typ, len, wrote) = write_frame-inv h f n bytes expected e in
      let small = expected-le-max h n expected in
      rw (← wrote) (
        read_frame-frame_bytes h (with_type f) rest buf (with_type-FrameInRange f r) typ
          (omega arith) (expected ∙ ap ok (sym len)))
  | inr (x, refused) ↦ absurd (cc)
]
