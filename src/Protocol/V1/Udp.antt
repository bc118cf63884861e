-- ===== src/Protocol/V1/Udp.antt =====
-- engine/internal/protocol/udp.go: HELLO and AUDIO datagrams.
use remoteau.Common.{
  ℕ, ◌+◌, ◌%◌, ◌^◌, not, List, [], ◌∷◌, ◌++◌, length, take, drop, slice, ltb, ◌==◌, if◌then◌else◌,
  Result, ok, err, reject_if, ◌>>=◌, ◌>>◌,
}
use remoteau.Common.Bytes.{be16, be32, be64, from_be}
use remoteau.Protocol.Streams.{bytes_equal, at}
use remoteau.Protocol.V1.Types.{
  Handshake, Frame, Error, truncated, bad_magic, bad_frame_type, payload_too_large,
  bad_payload_length, payload_empty, datagram_too_large, bad_datagram_type, bad_name_length,
  bad_version, name_too_long, max_name_len, validate, with_version, with_type,
}

-- `UDPDatagram`: which of its two parts is set goes by the type.
pub data Datagram : Type 0 where
  hello : Handshake → Datagram
  audio : Frame → Datagram

abbrev pub max_udp_audio_payload : ℕ
max_udp_audio_payload = 960

abbrev pub max_udp_datagram : ℕ
max_udp_datagram = 1500

abbrev udp_magic : List ℕ
udp_magic = b'R' ∷ b'A' ∷ b'U' ∷ b'U' ∷ []

-- `appendUDPEnvelope`
abbrev pub envelope : ℕ → ℕ → List ℕ
envelope version type = udp_magic ++ (version ∷ type ∷ [])

abbrev pub hello_bytes : Handshake → List ℕ
hello_bytes h =
    envelope h.version 1
    ++ (h.flags ∷ be32 h.sample_rate)
    ++ (h.channels ∷ h.format ∷ be16 h.frame_samples)
    ++ be16 (length h.name % 2 ^ 16)
    ++ h.name

-- What is appended to `dst`.
unfoldable pub append_udp_hello : Handshake → Result Error (List ℕ)
unfolding with_version
append_udp_hello h = do
  validate (with_version h)
  reject_if (ltb max_udp_datagram (17 + length h.name)) datagram_too_large
  ok (hello_bytes (with_version h))

abbrev pub audio_bytes : Frame → List ℕ
audio_bytes f =
    envelope 1 2
    ++ be64 f.seq
    ++ be64 f.capture_frame
    ++ be16 (length f.payload % 2 ^ 16)
    ++ f.payload

unfoldable pub append_udp_audio : Frame → Result Error (List ℕ)
unfolding with_type
append_udp_audio f = do
  reject_if (not ((with_type f).type == 1)) bad_frame_type
  reject_if (length f.payload == 0) payload_empty
  reject_if (ltb max_udp_audio_payload (length f.payload)) payload_too_large
  reject_if (ltb max_udp_datagram (24 + length f.payload)) datagram_too_large
  ok (audio_bytes (with_type f))

abbrev parse_hello : ℕ → List ℕ → Handshake
parse_hello version body = record {
  version = version;
  flags = at body 0;
  sample_rate = from_be (slice 1 5 body);
  channels = at body 5;
  format = at body 6;
  frame_samples = from_be (slice 7 9 body);
  name = drop 11 body;
}

unfoldable pub decode_udp_hello : ℕ → List ℕ → Result Error Handshake
decode_udp_hello version body = do
  reject_if (ltb (length body) 11) truncated
  reject_if (ltb max_name_len (from_be (slice 9 11 body))) name_too_long
  reject_if (not (length (drop 11 body) == from_be (slice 9 11 body))) bad_name_length
  validate (parse_hello version body)
  ok (parse_hello version body)

abbrev parse_audio : List ℕ → Frame
parse_audio body = record {
  type = 1;
  seq = from_be (slice 0 8 body);
  capture_frame = from_be (slice 8 16 body);
  payload = drop 18 body;
}

unfoldable pub decode_udp_audio : List ℕ → Result Error Frame
decode_udp_audio body = do
  reject_if (ltb (length body) 18) truncated
  reject_if (from_be (slice 16 18 body) == 0) payload_empty
  reject_if (ltb max_udp_audio_payload (from_be (slice 16 18 body))) payload_too_large
  reject_if (not (length (drop 18 body) == from_be (slice 16 18 body))) bad_payload_length
  ok (parse_audio body)

unfoldable pub decode_udp_datagram : List ℕ → Result Error Datagram
decode_udp_datagram packet = do
  reject_if (ltb max_udp_datagram (length packet)) datagram_too_large
  reject_if (ltb (length packet) 6) truncated
  reject_if (not (bytes_equal (take 4 packet) udp_magic)) bad_magic
  reject_if (not (at packet 4 == 1)) bad_version
  if at packet 5 == 1
      then (decode_udp_hello (at packet 4) (drop 6 packet) >>= λ h. ok (hello h))
      else if at packet 5 == 2
      then (decode_udp_audio (drop 6 packet) >>= λ f. ok (audio f))
      else err bad_datagram_type
