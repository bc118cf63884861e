-- ===== src/Engine/Host/Caps.antt =====
-- engine/internal/engine/host.go: the format that a host offers and the one that it negotiates.
-- Whether the binary has Opus is an argument. The fields of `Caps` hold what their Go type can.
pub mod Negotiated
pub mod Frames
mod Tests
use remoteau.Common.{
  ℕ, zero, suc, ◌+◌, ◌-◌, ◌*◌, ◌/◌, ◌%◌, ◌^◌, Bool, true, false, not, ◌&&◌, ◌||◌, min, max, ltb,
  ◌==◌, if◌then◌else◌, Result, ok, err, ◌>>=◌, ◌>>◌,
}
use remoteau.Common.Int.{ℤ, pos, negsuc, pos_part, leb_ℤ}
use remoteau.Audio.Format.{Format}
use remoteau.Codec.{Config}
use remoteau.Protocol.V2.Control.Types.{Caps, Error, validate_caps}
use remoteau.Protocol.V2.Control.Payloads.{to_u32}

-- `uint8(n)`
abbrev pub to_u8 : ℤ → ℕ
to_u8 (pos n) = n % 2 ^ 8
to_u8 (negsuc n) = 2 ^ 8 - 1 - n % 2 ^ 8

-- What `HostOptions` has of it.
pub record Options : Type 0 where
  pub format : Format
  pub max_bitrate : ℤ

abbrev min_int : ℤ → ℤ → ℤ
min_int a b = if leb_ℤ a b then a else b

abbrev max_int : ℤ → ℤ → ℤ
max_int a b = if leb_ℤ a b then b else a

-- `offerCaps`
unfoldable pub offer_caps : Bool → Options → Caps
offer_caps opus_available o = record {
  codec = if opus_available then 1 else 0;
  sample_rate = to_u32 o.format.rate;
  channels = to_u8 o.format.channels;
  frame_ms = if opus_available then 10 else 5;
  opus_bitrate = to_u32 (min_int o.max_bitrate (pos 256000));
  fec = 0;
  dtx = 0;
  complexity = 0;
  app_id = 0;
}

unfoldable pub clamp_u32 : ℕ → ℕ → ℕ → ℕ
clamp_u32 v lo hi = if v == 0 then hi else if ltb v lo then lo else if ltb hi v then hi else v

unfoldable pub clamp_frame_ms : ℕ → ℕ
clamp_frame_ms ms = if ms == 2 || (ms == 5 || (ms == 10 || ms == 20)) then ms else 10

abbrev pub bool_bit : Bool → ℕ
bool_bit b = if b then 1 else 0

-- `int(out.FrameMs)*int(out.Channels)*2 > protocolv2.MaxDatagramPayload-32`
abbrev pub over_budget : ℕ → ℕ → Bool
over_budget frame_ms channels = ltb 1120 (frame_ms * channels * 2)

-- The loop that halves the duration of a PCM frame, on fuel; a uint8 is halved seven times at most.
unfoldable pub shrink : ℕ → ℕ → ℕ → ℕ
shrink zero frame_ms channels = frame_ms
shrink (suc fuel) frame_ms channels =
    let halved = shrink fuel (frame_ms / 2) channels in
    if not (over_budget frame_ms channels)
    then frame_ms
    else if ltb 2 frame_ms
    then halved
    else frame_ms

abbrev or_own : ℕ → ℕ → ℕ
or_own asked own = if asked == 0 then own else asked

-- The codec and the frame duration by the request.
abbrev with_codec : Bool → Caps → Caps → Caps
with_codec opus_available req out =
    if req.codec == 0 || not opus_available
    then record out { codec = 0; frame_ms = 5 }
    else if req.codec == 1
    then record out { codec = 1; frame_ms = clamp_frame_ms req.frame_ms }
    else out

abbrev fitted : Caps → Caps
fitted out =
    if out.codec == 0 then record out { frame_ms = shrink 8 out.frame_ms out.channels } else out

-- All that `negotiateCaps` does before it validates.
abbrev pub proposal : Bool → Options → Caps → Caps
proposal opus_available o req =
    let offer = offer_caps opus_available o in
    let coded = with_codec opus_available req (record offer {
      opus_bitrate = clamp_u32 req.opus_bitrate 16000 (to_u32 (max_int o.max_bitrate (pos 256000)));
      fec = bool_bit (req.fec == 1 && opus_available);
      dtx = bool_bit (req.dtx == 1 && opus_available);
      sample_rate = or_own req.sample_rate offer.sample_rate;
      channels = or_own req.channels offer.channels;
    }) in
    fitted (record coded {
      complexity = or_own req.complexity coded.complexity;
      app_id = or_own req.app_id coded.app_id;
    })

-- `negotiateCaps`
unfoldable pub negotiate_caps : Bool → Options → Caps → Result Error Caps
unfolding offer_caps clamp_u32 clamp_frame_ms shrink
negotiate_caps opus_available o req =
    let out = proposal opus_available o req in validate_caps out >>= λ _. ok out

-- `codecConfigFromCaps`
unfoldable pub codec_config_from_caps : Caps → Config
codec_config_from_caps caps = record {
  is_opus = caps.codec == 1;
  sample_rate = pos caps.sample_rate;
  channels = pos caps.channels;
  frame_ms = pos caps.frame_ms;
  bitrate = pos caps.opus_bitrate;
  fec = caps.fec == 1;
  dtx = caps.dtx == 1;
  complexity = pos (if caps.complexity == 0 then 5 else caps.complexity);
  app_id = pos caps.app_id;
}

-- `frameBytes` of `sendLoop`
abbrev pub frame_bytes : Caps → ℕ
frame_bytes caps = caps.channels * 2 * caps.frame_ms * caps.sample_rate / 1000
