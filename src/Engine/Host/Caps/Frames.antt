-- ===== src/Engine/Host/Caps/Frames.antt =====
-- engine/internal/engine/host.go: the sizes of the frames that a host cuts, against those that its
-- codec takes and a datagram holds.
use remoteau.Common.{
  ℕ, zero, suc, ◌+◌, ◌*◌, ◌/◌, ◌%◌, ◌^◌, ◌≤◌, ◌<◌, ◌≡◌, refl, sym, ap, ◌∙◌, Bool, true, false, ltb,
  ◌==◌, List, length, ◌⊎◌, ok, err, arith, inl, inr, Bool-cases,
}
use remoteau.Common.Int.{ℤ, pos, negsuc, pos_part}
use remoteau.Protocol.V2.Control.Payloads.{to_u32}
use remoteau.Codec as Codecs
use remoteau.Codec.{encode_frame, pcm_frame_bytes}
use remoteau.Protocol.V2.Control.Types.{Caps, validate_caps}
use remoteau.Protocol.V2.Media as Media
use remoteau.Protocol.V2.Media.{Media, append_media}
use remoteau.Engine.Host.Caps.Negotiated.{rate_of, channels_of, pcm_of, bitrate_eq}
use native.Mathlib.Nat.{mul-add-div_right, div-add-mod'}
use remoteau.Engine.Host.Caps.{
  Options, over_budget, offer_caps, proposal, negotiate_caps, max_int, clamp_u32, shrink,
  codec_config_from_caps, frame_bytes,
}

-- The loop that halves a uint8 ends by its test, or at 2 ms.
shrink-ends :
    (fuel ms channels : ℕ)
    → ms < 2 ^ fuel
    → (over_budget (shrink fuel ms channels) channels ≡ false) ⊎ (shrink fuel ms channels ≤ 2)
unfolding shrink
shrink-ends zero ms channels h = inr (omega arith)
shrink-ends (suc fuel) ms channels h = elim (Bool-cases (over_budget ms channels)) [
  | inr fits ↦ rw fits (inl fits)
  | inl over ↦ elim (Bool-cases (ltb 2 ms)) [
    | inl more ↦ rw (over, more) (shrink-ends fuel (ms / 2) channels (omega arith))
    | inr least ↦ rw (over, least) (inr (ground arith))
  ]
]

regroup : (q r k : ℕ) → (q * 1000 + r) * k ≡ q * k * 1000 + r * k
regroup q r k = omega arith

spread : (q c : ℕ) → q * (c * 2) ≡ q * c * 2
spread q c = omega arith

reorder : (c m r : ℕ) → c * 2 * m * r ≡ r * m * (c * 2)
reorder c m r = omega arith

mul-split : (x k : ℕ) → x * k / 1000 ≡ x / 1000 * k + x % 1000 * k / 1000
mul-split x k =
    let same : x * k ≡ x / 1000 * k * 1000 + x % 1000 * k =
      sym (ap (λ t. t * k) (div-add-mod' x 1000)) ∙ regroup (x / 1000) (x % 1000) k in
    ap (λ t. t / 1000) same ∙ mul-add-div_right (omega arith) (x / 1000 * k) (x % 1000 * k)

-- A frame of the PCM codec, and the remainder that sendLoop adds to it.
frame_bytes-split :
    (caps : Caps)
    → frame_bytes caps
      ≡ pcm_frame_bytes (codec_config_from_caps caps)
        + caps.sample_rate * caps.frame_ms % 1000 * (caps.channels * 2) / 1000
unfolding codec_config_from_caps
frame_bytes-split caps =
    let x = caps.sample_rate * caps.frame_ms in
    let k = caps.channels * 2 in
    let same : caps.channels * 2 * caps.frame_ms * caps.sample_rate ≡ x * k =
      reorder caps.channels caps.frame_ms caps.sample_rate in
    ap (λ t. t / 1000) same
    ∙ (mul-split x k ∙ ap (λ t. t + x % 1000 * k / 1000) (spread (x / 1000) caps.channels))

fits : (a b left : ℕ) → a ≡ b + left / 1000 → left < 1000 → (a == b) ≡ true
fits a b left e h = ground arith

differs : (a b left : ℕ) → a ≡ b + left / 1000 → 1000 ≤ left → (a == b) ≡ false
differs a b left e h = ground arith

-- What `sendLoop` cuts is what the PCM codec takes exactly if the samples of a frame that are lost
-- by rounding, rate * milliseconds modulo 1000, are less than a byte over all channels; else every
-- chunk is refused.
pub encode_frame-frame_bytes :
    (caps : Caps) (chunk : List ℕ)
    → length chunk ≡ frame_bytes caps
    → (caps.sample_rate * caps.frame_ms % 1000 * (caps.channels * 2) < 1000
        → encode_frame (codec_config_from_caps caps) chunk ≡ ok chunk)
      × (1000 ≤ caps.sample_rate * caps.frame_ms % 1000 * (caps.channels * 2)
          → encode_frame (codec_config_from_caps caps) chunk ≡ err Codecs.bad_encode_size)
unfolding encode_frame
encode_frame-frame_bytes caps chunk size =
    let split = frame_bytes-split caps in
    let left = caps.sample_rate * caps.frame_ms % 1000 * (caps.channels * 2) in
    (
      λ small.
          let same : (length chunk == pcm_frame_bytes (codec_config_from_caps caps)) ≡ true =
            fits (length chunk) (pcm_frame_bytes (codec_config_from_caps caps)) left (size ∙ split)
              small in
          rw same refl,
      λ big.
          let other : (length chunk == pcm_frame_bytes (codec_config_from_caps caps)) ≡ false =
            differs (length chunk) (pcm_frame_bytes (codec_config_from_caps caps)) left
              (size ∙ split) big in
          rw other refl,
    )

pcm_ms :
    (opus_available : Bool) (o : Options) (req : Caps)
    → req.codec ≡ 0
    → 1 ≤ req.channels
    → req.channels ≤ 8
    → (proposal opus_available o req).frame_ms ≡ 5
unfolding offer_caps shrink
pcm_ms opus_available o req pcm some few = ground arith

validated :
    (caps : Caps)
    → caps.codec ≡ 0
    → caps.frame_ms ≡ 5
    → 8000 ≤ caps.sample_rate
    → caps.sample_rate ≤ 192000
    → 1 ≤ caps.channels
    → caps.channels ≤ 8
    → 16000 ≤ caps.opus_bitrate
    → caps.opus_bitrate ≤ 510000
    → validate_caps caps ≡ ok tt
unfolding validate_caps
validated caps pcm ms low high some few least most = ground arith

bitrate_range :
    (v : ℕ) (m : ℤ)
    → pos_part m ≤ 510000
    → (16000 ≤ clamp_u32 v 16000 (to_u32 (max_int m (pos 256000))))
      × (clamp_u32 v 16000 (to_u32 (max_int m (pos 256000))) ≤ 510000)
unfolding clamp_u32
bitrate_range v (pos n) h = (ground arith, ground arith)
bitrate_range v (negsuc n) h = (ground arith, ground arith)

oversized :
    (caps : Caps) (m : Media)
    → caps.frame_ms ≡ 5
    → 1152 < caps.channels * 2 * 5 * caps.sample_rate / 1000
    → length m.payload ≡ frame_bytes caps
    → append_media m ≡ err Media.payload_too_large
unfolding append_media
oversized caps m ms big size =
    let large : 1152 < length m.payload = rw (size, ms) big in ground arith

-- The answer to a request for PCM that is valid.
pub record PcmAnswer (req caps : Caps) : Type 0 where
  pub codec : caps.codec ≡ 0
  pub frame_ms : caps.frame_ms ≡ 5
  pub sample_rate : caps.sample_rate ≡ req.sample_rate
  pub channels : caps.channels ≡ req.channels

pub pcm_answer :
    (opus_available : Bool) (o : Options) (req : Caps)
    → req.codec ≡ 0
    → 8000 ≤ req.sample_rate
    → req.sample_rate ≤ 192000
    → 1 ≤ req.channels
    → req.channels ≤ 8
    → pos_part o.max_bitrate ≤ 510000
    → (caps : Caps) × (negotiate_caps opus_available o req ≡ ok caps) × PcmAnswer req caps
unfolding negotiate_caps
pcm_answer opus_available o req pcm low high some few small =
    let out = proposal opus_available o req in
    let rate = rate_of opus_available o req (omega arith) in
    let channels = channels_of opus_available o req (omega arith) in
    let ms = pcm_ms opus_available o req pcm some few in
    let codec = pcm_of opus_available o req (inl pcm) in
    let (least, most) = bitrate_range req.opus_bitrate o.max_bitrate small in
    let bitrate = bitrate_eq opus_available o req in
    let valid =
      validated out codec ms (rw rate low) (rw rate high) (rw channels some) (rw channels few)
        (rw bitrate least) (rw bitrate most) in
    (
      out,
      rw valid refl,
      record { codec = codec; frame_ms = ms; sample_rate = rate; channels = channels },
    )

-- A request for PCM that is valid and names its rate and its channels gets an answer, since the
-- test of the datagram budget leaves the sample rate out; with a frame of 5 ms above 1152 bytes at
-- that rate and those channels, each frame that `sendLoop` cuts is then refused by `AppendMedia`.
-- The host's bitrate limit is at most 510000.
pub negotiate_caps-oversized :
    (opus_available : Bool) (o : Options) (req : Caps) (m : Media)
    → req.codec ≡ 0
    → 8000 ≤ req.sample_rate
    → req.sample_rate ≤ 192000
    → 1 ≤ req.channels
    → req.channels ≤ 8
    → pos_part o.max_bitrate ≤ 510000
    → 1152 < req.channels * 2 * 5 * req.sample_rate / 1000
    → (caps : Caps) × (negotiate_caps opus_available o req ≡ ok caps)
      × (length m.payload ≡ frame_bytes caps → append_media m ≡ err Media.payload_too_large)
negotiate_caps-oversized opus_available o req m pcm low high some few small big =
    let (caps, answer, a) = pcm_answer opus_available o req pcm low high some few small in
    (caps, answer, λ size. oversized caps m a.frame_ms (rw (a.sample_rate, a.channels) big) size)
