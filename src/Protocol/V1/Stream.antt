-- ===== src/Protocol/V1/Stream.antt =====
-- engine/internal/protocol/protocol.go: the TCP stream format. What a call writes is a list of
-- bytes; what it reads from is the rest of the stream. Failures of the connection itself are not
-- modelled.
use remoteau.Common.{
  ℕ, ◌%◌, ◌^◌, not, List, [], ◌∷◌, ◌++◌, length, take, slice, copy, replicate, ltb, ◌==◌,
  if◌then◌else◌, Result, ok, err, reject_if, ◌>>=◌, ◌>>◌,
}
use remoteau.Common.Bytes.{be16, be32, be64, from_be}
use remoteau.Protocol.Streams.{Full, short, full, read_full, bytes_equal, at}
use remoteau.Protocol.V1.Types.{
  Handshake, Frame, Error, truncated, bad_magic, bad_frame_type, payload_too_large,
  bad_payload_length, name_too_long, max_name_len, max_payload_bytes, expected_payload_bytes,
  validate, with_version, with_type,
}

abbrev pub magic : List ℕ
magic = b'R' ∷ b'A' ∷ b'U' ∷ b'1' ∷ []

abbrev pub handshake_bytes : Handshake → List ℕ
handshake_bytes h =
    magic
    ++ (h.version ∷ h.flags ∷ be32 h.sample_rate)
    ++ (h.channels ∷ h.format ∷ be16 h.frame_samples)
    ++ be16 (length h.name % 2 ^ 16)
    ++ h.name

unfoldable pub write_handshake : Handshake → Result Error (List ℕ)
unfolding with_version
write_handshake h = do validate (with_version h); ok (handshake_bytes (with_version h))

abbrev parse_handshake : List ℕ → List ℕ → Handshake
parse_handshake header name = record {
  version = at header 4;
  flags = at header 5;
  sample_rate = from_be (slice 6 10 header);
  channels = at header 10;
  format = at header 11;
  frame_samples = from_be (slice 12 14 header);
  name = name;
}

abbrev or_truncated {ℓ} : {A : Type ℓ} → Full → (List ℕ → List ℕ → Result Error A) → Result Error A
or_truncated short k = err truncated
or_truncated (full xs rest) k = k xs rest

unfoldable pub read_handshake : List ℕ → Result Error (Handshake × List ℕ)
read_handshake r = or_truncated (read_full 16 r) λ header r1. do
  reject_if (not (bytes_equal (take 4 header) magic)) bad_magic
  reject_if (ltb max_name_len (from_be (slice 14 16 header))) name_too_long
  or_truncated (read_full (from_be (slice 14 16 header)) r1)
      λ name rest. do validate (parse_handshake header name); ok (parse_handshake header name, rest)

abbrev pub frame_bytes : Frame → List ℕ
frame_bytes f =
    (f.type ∷ be64 f.seq) ++ be64 f.capture_frame ++ be32 (length f.payload % 2 ^ 32) ++ f.payload

unfoldable pub write_frame : Handshake → Frame → Result Error (List ℕ)
unfolding with_type
write_frame h f = do
  expected ← expected_payload_bytes h
  reject_if (not ((with_type f).type == 1)) bad_frame_type
  reject_if (not (length f.payload == expected)) bad_payload_length
  ok (frame_bytes (with_type f))

abbrev parse_frame : List ℕ → List ℕ → Frame
parse_frame header payload = record {
  type = at header 0;
  seq = from_be (slice 1 9 header);
  capture_frame = from_be (slice 9 17 header);
  payload = payload;
}

-- The checks of `ReadFrame` on the header, which give the length to read.
abbrev payload_length : List ℕ → ℕ → Result Error ℕ
payload_length header expected = do
  reject_if (not (at header 0 == 1)) bad_frame_type
  reject_if (ltb max_payload_bytes (from_be (slice 17 21 header))) payload_too_large
  reject_if (not (from_be (slice 17 21 header) == expected)) bad_payload_length
  ok (from_be (slice 17 21 header))

-- `payloadBuf` seen over its whole capacity: it is replaced when it is too small.
unfoldable pub room_for : List ℕ → ℕ → List ℕ
room_for buf n = if ltb (length buf) n then replicate n 0 else buf

abbrev read_payload : List ℕ → Full → List ℕ → List ℕ → Result Error (Frame × List ℕ) × List ℕ
read_payload header short r buf = (err truncated, copy buf r)
read_payload header (full payload rest) r buf =
    (ok (parse_frame header payload, rest), copy buf payload)

abbrev read_body :
    List ℕ → Result Error ℕ → List ℕ → List ℕ → Result Error (Frame × List ℕ) × List ℕ
read_body header (err e) r buf = (err e, buf)
read_body header (ok n) r buf = read_payload header (read_full n r) r (room_for buf n)

abbrev read_header : Full → ℕ → List ℕ → Result Error (Frame × List ℕ) × List ℕ
read_header short expected buf = (err truncated, buf)
read_header (full header r) expected buf = read_body header (payload_length header expected) r buf

abbrev read_expected : Result Error ℕ → List ℕ → List ℕ → Result Error (Frame × List ℕ) × List ℕ
read_expected (err e) r buf = (err e, buf)
read_expected (ok expected) r buf = read_header (read_full 21 r) expected buf

-- The frame and the rest of the stream, or the error, beside the buffer that goes back to the caller.
unfoldable pub read_frame : List ℕ → Handshake → List ℕ → Result Error (Frame × List ℕ) × List ℕ
read_frame r h buf = read_expected (expected_payload_bytes h) r buf
