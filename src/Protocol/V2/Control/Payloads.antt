-- ===== src/Protocol/V2/Control/Payloads.antt =====
-- engine/internal/protocol/v2/control.go: the payload encoders, as what they append to `dst`, and
-- decoders.
use remoteau.Common.{
  ℕ, ◌+◌, ◌-◌, ◌%◌, ◌^◌, not, List, [], ◌∷◌, ◌++◌, length, take, drop, slice, ltb, ◌==◌,
  if◌then◌else◌, Result, ok, reject_if, ◌>>=◌, ◌>>◌,
}
use remoteau.Common.Int.{ℤ, pos, negsuc}
use remoteau.Common.Bytes.{le16, le32, from_le}
use remoteau.Protocol.Streams.{at}
use remoteau.Protocol.V2.Control.Types.{
  Error, truncated, length_mismatch, out_of_range, Hello, HelloOk, StreamAck, FormatUpdate,
  FormatAck, Stats, QualityMode, SetSource, SetSourceAck, ReceiverState, caps_bytes, decode_caps,
}

abbrev pub append_hello : Hello → List ℕ
append_hello h =
    le16 h.proto_version
    ++ le16 h.min_proto
    ++ le16 (length h.device_name % 2 ^ 16)
    ++ (h.device_id ++ (caps_bytes h.caps ++ h.device_name))

unfoldable pub decode_hello : List ℕ → Result Error Hello
decode_hello b = do
  reject_if (ltb (length b) 37) truncated
  reject_if (not (length b == 37 + from_le (slice 4 6 b))) length_mismatch
  caps ← decode_caps (slice 22 37 b)
  ok (record {
    proto_version = from_le (slice 0 2 b);
    min_proto = from_le (slice 2 4 b);
    device_name = drop 37 b;
    device_id = slice 6 22 b;
    caps = caps;
  })

abbrev pub append_hello_ok : HelloOk → List ℕ
append_hello_ok h = caps_bytes h.profile ++ h.resume_token

unfoldable pub decode_hello_ok : List ℕ → Result Error HelloOk
decode_hello_ok b = do
  reject_if (not (length b == 47)) length_mismatch
  profile ← decode_caps (take 15 b)
  ok (record { profile = profile; resume_token = drop 15 b })

abbrev pub append_stream_ack : StreamAck → List ℕ
append_stream_ack s = caps_bytes s.active ++ le32 s.format_gen

unfoldable pub decode_stream_ack : List ℕ → Result Error StreamAck
decode_stream_ack b = do
  reject_if (not (length b == 19)) length_mismatch
  active ← decode_caps (take 15 b)
  ok (record { active = active; format_gen = from_le (drop 15 b) })

abbrev pub append_format_update : FormatUpdate → List ℕ
append_format_update f = le32 f.format_gen ++ caps_bytes f.caps

unfoldable pub decode_format_update : List ℕ → Result Error FormatUpdate
decode_format_update b = do
  reject_if (not (length b == 19)) length_mismatch
  caps ← decode_caps (drop 4 b)
  ok (record { format_gen = from_le (take 4 b); caps = caps })

abbrev pub append_format_ack : FormatAck → List ℕ
append_format_ack f = le32 f.format_gen ++ (f.applied ∷ [])

unfoldable pub decode_format_ack : List ℕ → Result Error FormatAck
decode_format_ack b = do
  reject_if (not (length b == 5)) length_mismatch
  ok (record { format_gen = from_le (slice 0 4 b); applied = at b 4 })

-- `uint32(v)` and `int32(u)`: two's complement.
abbrev pub to_u32 : ℤ → ℕ
to_u32 (pos n) = n % 2 ^ 32
to_u32 (negsuc n) = 2 ^ 32 - 1 - n % 2 ^ 32

abbrev pub to_i32 : ℕ → ℤ
to_i32 u = if ltb u (2 ^ 31) then pos u else negsuc (2 ^ 32 - 1 - u)

abbrev pub append_stats : Stats → List ℕ
append_stats s =
    le16 s.loss_pct
    ++ le16 s.late_pct
    ++ le32 s.jitter_us
    ++ le32 s.rtt_us
    ++ le16 s.buf_depth_ms
    ++ le32 s.underruns
    ++ le32 (to_u32 s.drift_ppm)

unfoldable pub decode_stats : List ℕ → Result Error Stats
decode_stats b = do
  reject_if (not (length b == 22)) length_mismatch
  ok (record {
    loss_pct = from_le (slice 0 2 b);
    late_pct = from_le (slice 2 4 b);
    jitter_us = from_le (slice 4 8 b);
    rtt_us = from_le (slice 8 12 b);
    buf_depth_ms = from_le (slice 12 14 b);
    underruns = from_le (slice 14 18 b);
    drift_ppm = to_i32 (from_le (slice 18 22 b));
  })

-- `namePayloadLen`
unfoldable pub name_payload_len : List ℕ → Result Error ℕ
name_payload_len b = do reject_if (ltb (length b) 3) truncated; ok (from_le (slice 1 3 b))

abbrev pub append_quality_mode : QualityMode → List ℕ
append_quality_mode q = q.mode ∷ []

unfoldable pub decode_quality_mode : List ℕ → Result Error QualityMode
decode_quality_mode b = do
  reject_if (not (length b == 1)) length_mismatch
  reject_if (ltb 4 (at b 0)) out_of_range
  ok (record { mode = at b 0 })

abbrev pub append_set_source : SetSource → List ℕ
append_set_source s = (s.kind ∷ le16 (length s.name % 2 ^ 16)) ++ s.name

unfoldable pub decode_set_source : List ℕ → Result Error SetSource
unfolding name_payload_len
decode_set_source b = do
  name_len ← name_payload_len b
  reject_if (not (length b == 3 + name_len)) length_mismatch
  reject_if (ltb 3 (at b 0)) out_of_range
  ok (record { kind = at b 0; name = drop 3 b })

abbrev pub append_set_source_ack : SetSourceAck → List ℕ
append_set_source_ack a = (a.accepted ∷ le16 (length a.detail % 2 ^ 16)) ++ a.detail

unfoldable pub decode_set_source_ack : List ℕ → Result Error SetSourceAck
unfolding name_payload_len
decode_set_source_ack b = do
  detail_len ← name_payload_len b
  reject_if (not (length b == 3 + detail_len)) length_mismatch
  ok (record { accepted = at b 0; detail = drop 3 b })

abbrev pub append_receiver_state : ReceiverState → List ℕ
append_receiver_state r = r.state ∷ []

unfoldable pub decode_receiver_state : List ℕ → Result Error ReceiverState
decode_receiver_state b = do
  reject_if (not (length b == 1)) length_mismatch
  reject_if (ltb 6 (at b 0)) out_of_range
  ok (record { state = at b 0 })
