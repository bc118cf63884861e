-- ===== src/Protocol/V1/UdpRoundTrip.antt =====
-- engine/internal/protocol/udp.go: `DecodeUDPDatagram` on what the two appenders make.
use remoteau.Common.{
  ℕ, ◌%◌, ◌^◌, ◌≤◌, ◌≡◌, ◌≢◌, sym, ap, ◌∙◌, false, List, length, drop, ltb, ◌==◌, ==_refl, ok,
  arith, inl, inr, Result-cases,
}
use remoteau.Common.Bytes.{from_be-be16, from_be-be32, from_be-be64}
use remoteau.Protocol.V1.Types.{Handshake, Frame, validate, with_version, with_type}
use remoteau.Protocol.V1.Udp.{
  hello, audio, append_udp_hello, append_udp_audio, hello_bytes, audio_bytes, decode_udp_datagram,
  decode_udp_hello, decode_udp_audio, max_udp_audio_payload,
}
use remoteau.Protocol.V1.Bounds.{validate_iff}
use remoteau.Protocol.V1.RoundTrip.{FrameInRange, with_type-FrameInRange}

decode-hello_bytes :
    (h : Handshake) → validate h ≡ ok tt → decode_udp_datagram (hello_bytes h) ≡ ok (hello h)
unfolding decode_udp_datagram decode_udp_hello
decode-hello_bytes h valid =
    let r = (validate_iff h).0 valid in
    let valid1 : validate (record h { version = 1 }) ≡ ok tt =
      ap (λ v. validate (record h { version = v })) (sym r.version) ∙ valid in
    let fits : ltb 1500 (length (hello_bytes h)) ≡ false = ground arith in
    let whole : ltb (length (hello_bytes h)) 6 ≡ false = ground arith in
    let body : ltb (length (drop 6 (hello_bytes h))) 11 ≡ false = ground arith in
    let len : length h.name % 2 ^ 16 ≡ length h.name = omega arith in
    let small : ltb 255 (length h.name) ≡ false = ground arith in
    rw (
      fits,
      whole,
      r.version,
      body,
      len,
      from_be-be16 (length h.name) (omega arith),
      small,
      ==_refl (length h.name),
      from_be-be32 h.sample_rate (omega arith),
      from_be-be16 h.frame_samples (omega arith),
      valid1,
    )

-- A HELLO that `AppendUDPHello` makes decodes to the handshake with its version filled in.
pub decode_udp_datagram-append_udp_hello :
    (h : Handshake) (bytes : List ℕ)
    → append_udp_hello h ≡ ok bytes
    → decode_udp_datagram bytes ≡ ok (hello (with_version h))
unfolding append_udp_hello
decode_udp_datagram-append_udp_hello h bytes e = elim (Result-cases (validate (with_version h))) [
  | inl (u, valid) ↦
      let wrote : hello_bytes (with_version h) ≡ bytes = ground arith in
      rw (← wrote) (decode-hello_bytes (with_version h) valid)
  | inr (x, refused) ↦ absurd (cc)
]

decode-audio_bytes :
    (f : Frame)
    → FrameInRange f
    → f.type ≡ 1
    → length f.payload ≢ 0
    → length f.payload ≤ max_udp_audio_payload
    → decode_udp_datagram (audio_bytes f) ≡ ok (audio f)
unfolding decode_udp_datagram decode_udp_audio
decode-audio_bytes f r typ some small =
    let fits : ltb 1500 (length (audio_bytes f)) ≡ false = ground arith in
    let whole : ltb (length (audio_bytes f)) 6 ≡ false = ground arith in
    let body : ltb (length (drop 6 (audio_bytes f))) 18 ≡ false = ground arith in
    let len : length f.payload % 2 ^ 16 ≡ length f.payload = omega arith in
    let some' : (length f.payload == 0) ≡ false = ground arith in
    let small' : ltb 960 (length f.payload) ≡ false = ground arith in
    rw
      (
        fits,
        whole,
        body,
        len,
        from_be-be16 (length f.payload) (omega arith),
        some',
        small',
        ==_refl (length f.payload),
        from_be-be64 f.seq r.seq,
        from_be-be64 f.capture_frame r.capture_frame,
      )
      (ap (λ t. ok (audio (record f { type = t }))) (sym typ))

append_udp_audio-inv :
    (f : Frame) (bytes : List ℕ)
    → append_udp_audio f ≡ ok bytes
    → ((with_type f).type ≡ 1)
      × (length (with_type f).payload ≢ 0)
      × (length (with_type f).payload ≤ max_udp_audio_payload)
      × (audio_bytes (with_type f) ≡ bytes)
unfolding append_udp_audio
append_udp_audio-inv f bytes e = ground arith

-- An AUDIO datagram that `AppendUDPAudio` makes decodes to the frame with its type filled in.
pub decode_udp_datagram-append_udp_audio :
    (f : Frame) (bytes : List ℕ)
    → FrameInRange f
    → append_udp_audio f ≡ ok bytes
    → decode_udp_datagram bytes ≡ ok (audio (with_type f))
unfolding append_udp_audio
decode_udp_datagram-append_udp_audio f bytes r e =
    let (typ, some, small, wrote) = append_udp_audio-inv f bytes e in
    rw (← wrote) (decode-audio_bytes (with_type f) (with_type-FrameInRange f r) typ some small)
