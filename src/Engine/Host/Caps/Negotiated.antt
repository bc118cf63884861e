-- ===== src/Engine/Host/Caps/Negotiated.antt =====
-- engine/internal/engine/host.go: what `negotiateCaps` can answer.
use remoteau.Common.{
  ℕ, ◌^◌, ◌≤◌, ◌<◌, ◌≡◌, refl, sym, ap, ◌∙◌, Bool, true, false, not, if◌then◌else◌, Result, ok, err,
  arith, ◌⊎◌, inl, inr, Bool-cases, Result-cases,
}
use remoteau.Common.Int.{ℤ, pos, negsuc, pos_part}
use remoteau.Protocol.V2.Control.Payloads.{to_u32}
use remoteau.Codec as Codecs
use remoteau.Codec.{Codec, new_codec}
use remoteau.Protocol.V2.Control.Types.{Caps, validate_caps}
use remoteau.Engine.Host.Caps.{
  Options, offer_caps, proposal, negotiate_caps, clamp_u32, max_int, codec_config_from_caps,
}

-- What an answer has to do with the request.
pub record Negotiated (opus_available : Bool) (req caps : Caps) : Type 0 where
  pub valid : validate_caps caps ≡ ok tt
  pub rate : 0 < req.sample_rate → caps.sample_rate ≡ req.sample_rate
  pub channels : 0 < req.channels → caps.channels ≡ req.channels
  -- PCM where the request or the binary says so, and Opus only in a binary that has it.
  pub pcm : (req.codec ≡ 0) ⊎ (opus_available ≡ false) → caps.codec ≡ 0
  pub opus : caps.codec ≡ 1 → opus_available ≡ true
  pub fec : caps.fec ≡ 1 → (req.fec ≡ 1) × (opus_available ≡ true)
  pub bitrate : 16000 ≤ caps.opus_bitrate
  -- The codec that the host then makes.
  pub codec : (codec : Codec) × (new_codec opus_available (codec_config_from_caps caps) ≡ ok codec)

pub negotiate-inv :
    (opus_available : Bool) (o : Options) (req : Caps) {caps : Caps}
    → negotiate_caps opus_available o req ≡ ok caps
    → (validate_caps (proposal opus_available o req) ≡ ok tt)
      × (proposal opus_available o req ≡ caps)
unfolding negotiate_caps
negotiate-inv opus_available o req h =
    elim (Result-cases (validate_caps (proposal opus_available o req))) [
      | inl (tt, valid) ↦ (valid, ground (arith, valid))
      | inr (e, bad) ↦ absurd (ground (arith, bad))
    ]

config-validate :
    (caps : Caps)
    → validate_caps caps ≡ ok tt
    → Codecs.validate (codec_config_from_caps caps) ≡ ok tt
unfolding validate_caps Codecs.validate codec_config_from_caps
config-validate caps h = ground arith

opus_only :
    (opus_available : Bool) (o : Options) (req : Caps)
    → (proposal opus_available o req).codec ≡ 1
    → opus_available ≡ true
unfolding offer_caps
opus_only true o req h = refl
opus_only false o req h = ground arith

-- The choice of `New`.
abbrev chosen : Bool → Bool → Codecs.Config → Result Codecs.Error Codec
chosen is_opus opus_available c =
    if not is_opus
    then ok (Codecs.pcm c)
    else if opus_available
    then ok (Codecs.opus c)
    else err Codecs.opus_unavailable

is_one : (caps : Caps) → (codec_config_from_caps caps).is_opus ≡ true → caps.codec ≡ 1
unfolding codec_config_from_caps
is_one caps e = ground arith

pub rate_of :
    (opus_available : Bool) (o : Options) (req : Caps)
    → 0 < req.sample_rate
    → (proposal opus_available o req).sample_rate ≡ req.sample_rate
rate_of opus_available o req h = ground arith

pub channels_of :
    (opus_available : Bool) (o : Options) (req : Caps)
    → 0 < req.channels
    → (proposal opus_available o req).channels ≡ req.channels
channels_of opus_available o req h = ground arith

pub pcm_of :
    (opus_available : Bool) (o : Options) (req : Caps)
    → (req.codec ≡ 0) ⊎ (opus_available ≡ false)
    → (proposal opus_available o req).codec ≡ 0
pcm_of opus_available o req h = ground arith

fec_of :
    (opus_available : Bool) (o : Options) (req : Caps)
    → (proposal opus_available o req).fec ≡ 1
    → (req.fec ≡ 1) × (opus_available ≡ true)
fec_of opus_available o req h = ground arith

clamped : (v hi : ℕ) → 16000 ≤ hi → 16000 ≤ clamp_u32 v 16000 hi
unfolding clamp_u32
clamped v hi h = ground arith

highest : (m : ℤ) → pos_part m < 2 ^ 32 → 16000 ≤ to_u32 (max_int m (pos 256000))
highest (pos n) h = ground arith
highest (negsuc n) h = ground arith

pub bitrate_eq :
    (opus_available : Bool) (o : Options) (req : Caps)
    → (proposal opus_available o req).opus_bitrate
      ≡ clamp_u32 req.opus_bitrate 16000 (to_u32 (max_int o.max_bitrate (pos 256000)))
bitrate_eq opus_available o req = ground arith

bitrate_of :
    (opus_available : Bool) (o : Options) (req : Caps)
    → pos_part o.max_bitrate < 2 ^ 32
    → 16000 ≤ (proposal opus_available o req).opus_bitrate
bitrate_of opus_available o req h = rw (bitrate_eq opus_available o req) (
    clamped req.opus_bitrate (to_u32 (max_int o.max_bitrate (pos 256000)))
      (highest o.max_bitrate h))

new_codec-total :
    (opus_available : Bool) (c : Codecs.Config)
    → Codecs.validate c ≡ ok tt
    → (c.is_opus ≡ true → opus_available ≡ true)
    → (codec : Codec) × (new_codec opus_available c ≡ ok codec)
unfolding new_codec
new_codec-total opus_available c valid only = elim (Bool-cases c.is_opus) [
  | inl is_opus ↦ (Codecs.opus c, rw (valid, only is_opus) (ap (λ b. chosen b true c) is_opus))
  | inr plain ↦ (Codecs.pcm c, rw valid (ap (λ b. chosen b opus_available c) plain))
]

pub negotiate_caps-Negotiated :
    (opus_available : Bool) (o : Options) (req : Caps) {caps : Caps}
    → pos_part o.max_bitrate < 2 ^ 32
    → negotiate_caps opus_available o req ≡ ok caps
    → Negotiated opus_available req caps
negotiate_caps-Negotiated opus_available o req {caps} small h =
    let (valid, same) = negotiate-inv opus_available o req h in
    let valid' = rw same at valid in
    let only : caps.codec ≡ 1 → opus_available ≡ true =
      λ e. opus_only opus_available o req (ap (λ (c : Caps). c.codec) same ∙ e) in
    record {
      valid = valid';
      rate = λ e. sym (ap (λ (c : Caps). c.sample_rate) same) ∙ rate_of opus_available o req e;
      channels = λ e. sym (ap (λ (c : Caps). c.channels) same) ∙ channels_of opus_available o req e;
      pcm = λ e. sym (ap (λ (c : Caps). c.codec) same) ∙ pcm_of opus_available o req e;
      opus = only;
      fec = λ e. fec_of opus_available o req (ap (λ (c : Caps). c.fec) same ∙ e);
      bitrate =
          rw (← ap (λ (c : Caps). c.opus_bitrate) same) (bitrate_of opus_available o req small);
      codec =
          new_codec-total opus_available (codec_config_from_caps caps) (config-validate caps valid')
            (λ e. only (is_one caps e));
    }
