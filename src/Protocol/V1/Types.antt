-- ===== src/Protocol/V1/Types.antt =====
-- engine/internal/protocol/protocol.go: the handshake, the frame, and their checks. A name is the
-- list of its bytes; fields hold what their Go type can.
use remoteau.Common.{
  ℕ, ◌-◌, ◌*◌, ◌/◌, ◌%◌, ◌^◌, not, ◌||◌, List, length, ltb, ◌==◌, if◌then◌else◌, Result, ok,
  reject_if, ◌>>=◌, ◌>>◌,
}

pub record Handshake : Type 0 where
  pub version : ℕ
  pub flags : ℕ
  pub sample_rate : ℕ
  pub channels : ℕ
  pub format : ℕ
  pub frame_samples : ℕ
  pub name : List ℕ

pub record Frame : Type 0 where
  pub type : ℕ
  pub seq : ℕ
  pub capture_frame : ℕ
  pub payload : List ℕ

pub data Error : Type 0 where
  bad_version bad_flags bad_format bad_rate bad_channels bad_frame_samples name_too_long : Error
  payload_overflows payload_exceeds_max : Error
  truncated bad_magic bad_frame_type payload_too_large bad_payload_length payload_empty : Error
  datagram_too_large bad_datagram_type bad_name_length : Error

abbrev pub max_name_len : ℕ
max_name_len = 255

abbrev pub max_payload_bytes : ℕ
max_payload_bytes = 262144

-- `ExpectedPayloadBytes`, in uint64 arithmetic; `maxInt/2` is (2^63 - 1) / 2.
unfoldable pub expected_payload_bytes : Handshake → Result Error ℕ
expected_payload_bytes h =
    let samples = h.frame_samples * h.channels % 2 ^ 64 in
    let bytes = samples * 2 % 2 ^ 64 in
    do
      reject_if (ltb ((2 ^ 63 - 1) / 2) samples) payload_overflows
      reject_if (ltb max_payload_bytes bytes) payload_exceeds_max
      ok bytes

-- `SupportedFlags` is 0, so any flag is unsupported.
unfoldable pub validate : Handshake → Result Error (Unit {0})
unfolding expected_payload_bytes
validate h = do
  reject_if (not (h.version == 1)) bad_version
  reject_if (not (h.flags == 0)) bad_flags
  reject_if (not (h.format == 1)) bad_format
  reject_if (ltb h.sample_rate 8000 || ltb 192000 h.sample_rate) bad_rate
  reject_if (ltb h.channels 1 || ltb 8 h.channels) bad_channels
  reject_if (ltb h.frame_samples 1 || ltb 4096 h.frame_samples) bad_frame_samples
  reject_if (ltb max_name_len (length h.name)) name_too_long
  expected_payload_bytes h >>= λ _. ok tt

-- `if h.Version == 0 { h.Version = Version1 }`
unfoldable pub with_version : Handshake → Handshake
with_version h = record h { version = if h.version == 0 then 1 else h.version }

-- `if f.Type == 0 { f.Type = FrameTypeAudio }`
unfoldable pub with_type : Frame → Frame
with_type f = record f { type = if f.type == 0 then 1 else f.type }
