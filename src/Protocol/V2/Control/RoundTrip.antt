-- ===== src/Protocol/V2/Control/RoundTrip.antt =====
-- engine/internal/protocol/v2/control.go: each decoder on what its encoder appends.
use remoteau.Common.{
  ℕ, ◌+◌, ◌-◌, ◌%◌, ◌^◌, ◌≤◌, ◌<◌, ◌≡◌, ◌↔◌, ap, true, false, List, [], ◌++◌, length, drop, ltb,
  ◌==◌, ok, arith, length-append, take_front, drop_front, drop-append, drop_all,
}
use remoteau.Common.Int.{ℤ, pos, negsuc, pos_part, neg_part}
use remoteau.Common.Bytes.{le32, from_le, from_le-le16, from_le-le32}
use remoteau.Protocol.V2.Control.Types.{
  Caps, Hello, HelloOk, StreamAck, FormatUpdate, FormatAck, Stats, QualityMode, SetSource,
  SetSourceAck, ReceiverState, caps_bytes, decode_caps,
}
use remoteau.Protocol.V2.Control.Payloads.{
  append_hello, decode_hello, append_hello_ok, decode_hello_ok, append_stream_ack,
  decode_stream_ack, append_format_update, decode_format_update, append_format_ack,
  decode_format_ack, append_stats, decode_stats, to_u32, to_i32, append_quality_mode,
  decode_quality_mode, append_set_source, decode_set_source, append_set_source_ack,
  decode_set_source_ack, append_receiver_state, decode_receiver_state,
}

-- The fields wider than a byte hold what their Go types hold.
pub record CapsInRange (c : Caps) : Type 0 where
  pub sample_rate : c.sample_rate < 2 ^ 32
  pub opus_bitrate : c.opus_bitrate < 2 ^ 32

-- The capabilities at the front of any bytes are read back.
pub decode_caps-caps_bytes :
    (c : Caps) (rest : List ℕ) → CapsInRange c → decode_caps (caps_bytes c ++ rest) ≡ ok c
unfolding decode_caps
decode_caps-caps_bytes c rest r =
    let whole : ltb (length (caps_bytes c ++ rest)) 15 ≡ false = ground arith in
    rw (whole, from_le-le32 c.sample_rate r.sample_rate, from_le-le32 c.opus_bitrate r.opus_bitrate)

pub record HelloInRange (h : Hello) : Type 0 where
  pub proto_version : h.proto_version < 2 ^ 16
  pub min_proto : h.min_proto < 2 ^ 16
  pub name : length h.device_name < 2 ^ 16
  pub id : length h.device_id ≡ 16
  pub caps : CapsInRange h.caps

-- A HELLO with a 16-byte device id and a name of less than 65536 bytes is read back.
pub decode_hello-append_hello : (h : Hello) → HelloInRange h → decode_hello (append_hello h) ≡ ok h
unfolding decode_hello
decode_hello-append_hello h r =
    let len : length (append_hello h) ≡ 37 + length h.device_name =
      omega (arith, r.id, length-append h.device_id (caps_bytes h.caps ++ h.device_name)) in
    let whole : ltb (length (append_hello h)) 37 ≡ false = ground (arith, len) in
    let exact : (length (append_hello h) == 37 + length h.device_name) ≡ true =
      ground (arith, len) in
    let name : length h.device_name % 2 ^ 16 ≡ length h.device_name = omega (arith, r.name) in
    let caps = decode_caps-caps_bytes h.caps [] r.caps in
    let tail : drop 31 (h.device_id ++ (caps_bytes h.caps ++ h.device_name)) ≡ h.device_name = rw (
      drop-append 31 h.device_id (caps_bytes h.caps ++ h.device_name),
      r.id,
      drop_all 31 h.device_id (omega arith),
    ) in
    rw
      (
        whole,
        name,
        from_le-le16 (length h.device_name) r.name,
        exact,
        drop_front 16 h.device_id (caps_bytes h.caps ++ h.device_name) r.id,
        take_front 16 h.device_id (caps_bytes h.caps ++ h.device_name) r.id,
      )
      (rw (
        caps,
        from_le-le16 h.proto_version r.proto_version,
        from_le-le16 h.min_proto r.min_proto,
        tail,
      ))

-- A HELLO_OK with a 32-byte resume token is read back.
pub decode_hello_ok-append_hello_ok :
    (h : HelloOk)
    → CapsInRange h.profile
    → length h.resume_token ≡ 32
    → decode_hello_ok (append_hello_ok h) ≡ ok h
unfolding decode_hello_ok
decode_hello_ok-append_hello_ok h r token =
    let exact : (length (append_hello_ok h) == 47) ≡ true = ground arith in
    rw (exact, decode_caps-caps_bytes h.profile [] r)

-- A STREAM_ACK is read back.
pub decode_stream_ack-append_stream_ack :
    (s : StreamAck)
    → CapsInRange s.active
    → s.format_gen < 2 ^ 32
    → decode_stream_ack (append_stream_ack s) ≡ ok s
unfolding decode_stream_ack
decode_stream_ack-append_stream_ack s r gen =
    rw (decode_caps-caps_bytes s.active [] r, from_le-le32 s.format_gen gen)

-- A FORMAT_UPDATE is read back.
pub decode_format_update-append_format_update :
    (f : FormatUpdate)
    → CapsInRange f.caps
    → f.format_gen < 2 ^ 32
    → decode_format_update (append_format_update f) ≡ ok f
unfolding decode_format_update
decode_format_update-append_format_update f r gen =
    rw (decode_caps-caps_bytes f.caps [] r, from_le-le32 f.format_gen gen)

-- A FORMAT_ACK is read back.
pub decode_format_ack-append_format_ack :
    (f : FormatAck) → f.format_gen < 2 ^ 32 → decode_format_ack (append_format_ack f) ≡ ok f
unfolding decode_format_ack
decode_format_ack-append_format_ack f gen = rw (from_le-le32 f.format_gen gen)

pub record StatsInRange (s : Stats) : Type 0 where
  pub loss : s.loss_pct < 2 ^ 16
  pub late : s.late_pct < 2 ^ 16
  pub jitter : s.jitter_us < 2 ^ 32
  pub rtt : s.rtt_us < 2 ^ 32
  pub depth : s.buf_depth_ms < 2 ^ 16
  pub underruns : s.underruns < 2 ^ 32
  pub drift : (pos_part s.drift_ppm < 2 ^ 31) × (neg_part s.drift_ppm ≤ 2 ^ 31)

to_i32-to_u32 :
    (d : ℤ) → pos_part d < 2 ^ 31 → neg_part d ≤ 2 ^ 31 → to_i32 (from_le (le32 (to_u32 d))) ≡ d
to_i32-to_u32 (pos n) hp hn =
    let same : n % 2 ^ 32 ≡ n = omega arith in
    rw (same, from_le-le32 n (omega arith)) (ground arith)
to_i32-to_u32 (negsuc n) hp hn =
    let same : 2 ^ 32 - 1 - n % 2 ^ 32 ≡ 2 ^ 32 - 1 - n = omega arith in
    rw (same, from_le-le32 (2 ^ 32 - 1 - n) (omega arith)) (ground arith)

-- A receiver report whose fields fit their wire types is read back, the signed drift included.
pub decode_stats-append_stats : (s : Stats) → StatsInRange s → decode_stats (append_stats s) ≡ ok s
unfolding decode_stats
decode_stats-append_stats s r =
    rw
      (
        from_le-le16 s.loss_pct r.loss,
        from_le-le16 s.late_pct r.late,
        from_le-le32 s.jitter_us r.jitter,
        from_le-le32 s.rtt_us r.rtt,
        from_le-le16 s.buf_depth_ms r.depth,
        from_le-le32 s.underruns r.underruns,
      )
      (ap (λ d. ok (record s { drift_ppm = d })) (to_i32-to_u32 s.drift_ppm r.drift.0 r.drift.1))

-- A SET_SOURCE whose kind is at most 3 and whose name is below 65536 bytes is read back.
pub decode_set_source-append_set_source :
    (s : SetSource)
    → s.kind ≤ 3
    → length s.name < 2 ^ 16
    → decode_set_source (append_set_source s) ≡ ok s
unfolding decode_set_source
decode_set_source-append_set_source s kind name =
    let whole : ltb (length (append_set_source s)) 3 ≡ false = ground arith in
    let len : length s.name % 2 ^ 16 ≡ length s.name = omega arith in
    let exact : (length (append_set_source s) == 3 + length s.name) ≡ true = ground arith in
    let known : ltb 3 s.kind ≡ false = ground arith in
    rw (whole, len, from_le-le16 (length s.name) name, exact, known)

-- A SET_SOURCE_ACK whose detail is below 65536 bytes is read back.
pub decode_set_source_ack-append_set_source_ack :
    (a : SetSourceAck)
    → length a.detail < 2 ^ 16
    → decode_set_source_ack (append_set_source_ack a) ≡ ok a
unfolding decode_set_source_ack
decode_set_source_ack-append_set_source_ack a detail =
    let whole : ltb (length (append_set_source_ack a)) 3 ≡ false = ground arith in
    let len : length a.detail % 2 ^ 16 ≡ length a.detail = omega arith in
    let exact : (length (append_set_source_ack a) == 3 + length a.detail) ≡ true = ground arith in
    rw (whole, len, from_le-le16 (length a.detail) detail, exact)

-- A quality mode is read back exactly when it is one of the five, 0 to 4.
pub decode_quality_mode-append_quality_mode :
    (q : QualityMode) → (decode_quality_mode (append_quality_mode q) ≡ ok q) ↔ (q.mode ≤ 4)
unfolding decode_quality_mode
decode_quality_mode-append_quality_mode q = (λ h. ground arith, λ h. ground arith)

-- A receiver state is read back exactly when it is one of the seven, 0 to 6.
pub decode_receiver_state-append_receiver_state :
    (r : ReceiverState) → (decode_receiver_state (append_receiver_state r) ≡ ok r) ↔ (r.state ≤ 6)
unfolding decode_receiver_state
decode_receiver_state-append_receiver_state r = (λ h. ground arith, λ h. ground arith)
