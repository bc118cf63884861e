-- ===== src/Codec.antt =====
-- engine/internal/codec/codec.go: the configuration of a codec, and the PCM codec. libopus is not
-- modelled; whether the binary has it is an argument. Go's `int` fields are signed.
pub mod Pcm
use remoteau.Common.{
  ℕ, ◌*◌, ◌/◌, ◌-◌, Bool, true, false, not, ◌&&◌, ◌||◌, List, ◌++◌, length, min, take, drop,
  replicate, copy, ◌==◌, if◌then◌else◌, Result, ok, err, reject_if, ◌>>=◌, ◌>>◌,
}
use remoteau.Common.Int.{ℤ, pos, pos_part, ltb_ℤ, leb_ℤ}

pub record Config : Type 0 where
  pub is_opus : Bool
  pub sample_rate : ℤ
  pub channels : ℤ
  pub frame_ms : ℤ
  pub bitrate : ℤ
  pub fec : Bool
  pub dtx : Bool
  pub complexity : ℤ
  pub app_id : ℤ

pub data Error : Type 0 where
  bad_rate bad_channels bad_frame_ms bad_bitrate opus_unavailable : Error
  bad_encode_size bad_decode_size : Error

-- Both on a configuration that `Validate` lets through, where the numbers are not negative.
abbrev pub frame_samples : Config → ℕ
frame_samples c = pos_part c.sample_rate * pos_part c.frame_ms / 1000

abbrev pub pcm_frame_bytes : Config → ℕ
pcm_frame_bytes c = frame_samples c * pos_part c.channels * 2

abbrev outside : ℕ → ℕ → ℤ → Bool
outside lo hi z = ltb_ℤ z (pos lo) || ltb_ℤ (pos hi) z

abbrev is : ℕ → ℤ → Bool
is n z = leb_ℤ z (pos n) && leb_ℤ (pos n) z

-- `Config.Validate`
unfoldable pub validate : Config → Result Error (Unit {0})
validate c = do
  reject_if (outside 8000 192000 c.sample_rate) bad_rate
  reject_if (outside 1 8 c.channels) bad_channels
  reject_if (not (is 2 c.frame_ms || (is 5 c.frame_ms || (is 10 c.frame_ms || is 20 c.frame_ms))))
      bad_frame_ms
  reject_if (c.is_opus && (not (is 0 c.bitrate) && outside 6000 510000 c.bitrate)) bad_bitrate
  ok tt

pub data Codec : Type 0 where
  pcm : Config → Codec
  opus : Config → Codec

-- `New`
unfoldable pub new_codec : Bool → Config → Result Error Codec
new_codec opus_available c = do
  validate c
  if not c.is_opus then ok (pcm c) else if opus_available then ok (opus c) else err opus_unavailable

-- `pcmCodec.EncodeFrame`
unfoldable pub encode_frame : Config → List ℕ → Result Error (List ℕ)
encode_frame c samples = do
  reject_if (not (length samples == pcm_frame_bytes c)) bad_encode_size
  ok samples

-- `pcmCodec.DecodeFrame`: the buffer behind the call, and the bytes of it that are valid.
unfoldable pub decode_frame : Config → List ℕ → Bool → List ℕ → Result Error (List ℕ × ℕ)
decode_frame c wire lost out =
    let n = min (length out) (pcm_frame_bytes c) in
    if lost
    then ok (replicate n 0 ++ drop n out, n)
    else if not (length wire == pcm_frame_bytes c)
    then err bad_decode_size
    else ok (copy out wire, min (length out) (length wire))
