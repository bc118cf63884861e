-- ===== src/Protocol/V2/Media.antt =====
-- engine/internal/protocol/v2/packet.go: one media datagram. Its version and type are both 1.
use remoteau.Common.{
  ℕ, ◌+◌, ◌*◌, ◌%◌, ◌^◌, ◌≤◌, ◌<◌, ◌≡◌, ◌≢◌, Bool, true, false, not, ◌||◌, List, [], ◌∷◌, ◌++◌,
  length, drop, slice, ltb, ◌==◌, Result, ok, err, reject_if, ◌>>◌, arith,
}
use remoteau.Common.Bytes.{byte_at, be16, be32, from_be, from_be-be16, from_be-be32}
use remoteau.Protocol.Streams.{at}

pub record Media : Type 0 where
  pub stream_id : ℕ
  pub format_gen : ℕ
  pub flags : ℕ
  pub seq : ℕ
  pub capture_ts_us : ℕ
  pub payload : List ℕ

pub data Error : Type 0 where
  payload_empty payload_too_large truncated bad_magic bad_version bad_type bad_length : Error

abbrev pub max_datagram_payload : ℕ
max_datagram_payload = 1152

-- `appendU40`
abbrev pub be40 : ℕ → List ℕ
be40 v = byte_at 32 v ∷ byte_at 24 v ∷ byte_at 16 v ∷ byte_at 8 v ∷ byte_at 0 v ∷ []

-- `readU40`: the shifted bytes have no bits in common, so `|` is a sum.
pub read_u40 : List ℕ → ℕ
read_u40 b = at b 0 * 2 ^ 32 + at b 1 * 2 ^ 24 + at b 2 * 2 ^ 16 + at b 3 * 2 ^ 8 + at b 4

abbrev pub media_bytes : Media → List ℕ
media_bytes m =
    b'R'
    ∷ b'A'
    ∷ b'U'
    ∷ b'2'
    ∷ 1
    ∷ 1
    ∷ m.stream_id
    ∷ (be16 m.format_gen
        ++ (m.flags ∷ be32 m.seq)
        ++ be40 m.capture_ts_us
        ++ be16 (length m.payload % 2 ^ 16)
        ++ m.payload)

-- What is appended to `dst`.
unfoldable pub append_media : Media → Result Error (List ℕ)
append_media m = do
  reject_if (length m.payload == 0) payload_empty
  reject_if (ltb max_datagram_payload (length m.payload)) payload_too_large
  ok (media_bytes m)

abbrev parse_media : List ℕ → Media
parse_media packet = record {
  stream_id = at packet 6;
  format_gen = from_be (slice 7 9 packet);
  flags = at packet 9;
  seq = from_be (slice 10 14 packet);
  capture_ts_us = read_u40 (slice 14 19 packet);
  payload = drop 21 packet;
}

abbrev magic_mismatch : List ℕ → Bool
magic_mismatch packet =
    not (at packet 0 == b'R')
    || (not (at packet 1 == b'A') || (not (at packet 2 == b'U') || not (at packet 3 == b'2')))

unfoldable pub decode_media : List ℕ → Result Error Media
decode_media packet = do
  reject_if (ltb (length packet) 21) truncated
  reject_if (magic_mismatch packet) bad_magic
  reject_if (not (at packet 4 == 1)) bad_version
  reject_if (not (at packet 5 == 1)) bad_type
  reject_if (from_be (slice 19 21 packet) == 0) payload_empty
  reject_if (not (length packet == 21 + from_be (slice 19 21 packet))) bad_length
  ok (parse_media packet)

-- The fields that the Go types of a datagram hold, the capture time apart.
pub record InRange (m : Media) : Type 0 where
  pub format_gen : m.format_gen < 2 ^ 16
  pub seq : m.seq < 2 ^ 32

read_u40-be40 : (v : ℕ) → read_u40 (be40 v) ≡ v % 2 ^ 40
unfolding read_u40
read_u40-be40 v = omega arith

decode-media_bytes :
    (m : Media)
    → InRange m
    → length m.payload ≢ 0
    → length m.payload < 2 ^ 16
    → decode_media (media_bytes m) ≡ ok (record m { capture_ts_us = m.capture_ts_us % 2 ^ 40 })
unfolding decode_media
decode-media_bytes m r some small =
    let whole : ltb (length (media_bytes m)) 21 ≡ false = ground arith in
    let len : length m.payload % 2 ^ 16 ≡ length m.payload = omega arith in
    let some' : (length m.payload == 0) ≡ false = ground arith in
    let exact : (length (media_bytes m) == 21 + length m.payload) ≡ true = ground arith in
    rw (
      whole,
      len,
      from_be-be16 (length m.payload) small,
      some',
      exact,
      from_be-be16 m.format_gen r.format_gen,
      from_be-be32 m.seq r.seq,
      read_u40-be40 m.capture_ts_us,
    )

-- Every datagram that `AppendMedia` makes decodes to the media that went in, with the capture time
-- modulo 2^40.
pub decode_media-append_media :
    (m : Media) (bytes : List ℕ)
    → InRange m
    → append_media m ≡ ok bytes
    → decode_media bytes ≡ ok (record m { capture_ts_us = m.capture_ts_us % 2 ^ 40 })
unfolding append_media
decode_media-append_media m bytes r e =
    let some : length m.payload ≢ 0 = ground arith in
    let small : length m.payload ≤ 1152 = ground arith in
    let wrote : media_bytes m ≡ bytes = ground arith in
    rw (← wrote) (decode-media_bytes m r some (omega arith))

-- The reader accepts more than the writer: any payload of 1153 to 65535 bytes decodes, though
-- `AppendMedia` refuses to send it.
pub decode_media_above_max :
    (m : Media)
    → InRange m
    → max_datagram_payload < length m.payload
    → length m.payload < 2 ^ 16
    → (append_media m ≡ err payload_too_large)
      × (decode_media (media_bytes m) ≡ ok (record m { capture_ts_us = m.capture_ts_us % 2 ^ 40 }))
unfolding append_media
decode_media_above_max m r big small =
    (ground arith, decode-media_bytes m r (λ e. omega arith) small)
