-- ===== src/Protocol/V2/Control/Types.antt =====
-- engine/internal/protocol/v2/control.go: the capabilities blob and the payload types. Text is the
-- list of its bytes; an array of n bytes is a list, of length n where a theorem needs it.
use remoteau.Common.{
  ℕ, not, ◌&&◌, ◌||◌, List, [], ◌∷◌, ◌++◌, length, slice, ltb, ◌==◌, Result, ok, reject_if, ◌>>◌,
}
use remoteau.Common.Int.{ℤ}
use remoteau.Common.Bytes.{le32, from_le}
use remoteau.Protocol.Streams.{at}

pub record Caps : Type 0 where
  pub codec : ℕ
  pub sample_rate : ℕ
  pub channels : ℕ
  pub frame_ms : ℕ
  pub opus_bitrate : ℕ
  pub fec : ℕ
  pub dtx : ℕ
  pub complexity : ℕ
  pub app_id : ℕ

pub data Error : Type 0 where
  caps_truncated bad_rate bad_channels bad_frame_ms bad_codec bad_bitrate : Error
  payload_too_large unexpected_eof eof : Error
  truncated length_mismatch out_of_range : Error

pub record Hello : Type 0 where
  pub proto_version : ℕ
  pub min_proto : ℕ
  pub device_name : List ℕ
  pub device_id : List ℕ
  pub caps : Caps

pub record HelloOk : Type 0 where
  pub profile : Caps
  pub resume_token : List ℕ

pub record StreamAck : Type 0 where
  pub active : Caps
  pub format_gen : ℕ

pub record FormatUpdate : Type 0 where
  pub format_gen : ℕ
  pub caps : Caps

pub record FormatAck : Type 0 where
  pub format_gen : ℕ
  pub applied : ℕ

pub record Stats : Type 0 where
  pub loss_pct : ℕ
  pub late_pct : ℕ
  pub jitter_us : ℕ
  pub rtt_us : ℕ
  pub buf_depth_ms : ℕ
  pub underruns : ℕ
  pub drift_ppm : ℤ

pub record QualityMode : Type 0 where
  pub mode : ℕ

pub record SetSource : Type 0 where
  pub kind : ℕ
  pub name : List ℕ

pub record SetSourceAck : Type 0 where
  pub accepted : ℕ
  pub detail : List ℕ

pub record ReceiverState : Type 0 where
  pub state : ℕ

-- `Caps.Append`
abbrev pub caps_bytes : Caps → List ℕ
caps_bytes c =
    (c.codec ∷ le32 c.sample_rate)
    ++ (c.channels ∷ c.frame_ms ∷ le32 c.opus_bitrate)
    ++ (c.fec ∷ c.dtx ∷ c.complexity ∷ c.app_id ∷ [])

unfoldable pub decode_caps : List ℕ → Result Error Caps
decode_caps b = do
  reject_if (ltb (length b) 15) caps_truncated
  ok (record {
    codec = at b 0;
    sample_rate = from_le (slice 1 5 b);
    channels = at b 5;
    frame_ms = at b 6;
    opus_bitrate = from_le (slice 7 11 b);
    fec = at b 11;
    dtx = at b 12;
    complexity = at b 13;
    app_id = at b 14;
  })

-- `Caps.Validate`
unfoldable pub validate_caps : Caps → Result Error (Unit {0})
validate_caps c = do
  reject_if (ltb c.sample_rate 8000 || ltb 192000 c.sample_rate) bad_rate
  reject_if (ltb c.channels 1 || ltb 8 c.channels) bad_channels
  reject_if (not (c.frame_ms == 2 || (c.frame_ms == 5 || (c.frame_ms == 10 || c.frame_ms == 20))))
      bad_frame_ms
  reject_if (not (c.codec == 0 || c.codec == 1)) bad_codec
  reject_if (not (c.opus_bitrate == 0) && (ltb c.opus_bitrate 6000 || ltb 510000 c.opus_bitrate))
      bad_bitrate
  ok tt
