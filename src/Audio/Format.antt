-- ===== src/Audio/Format.antt =====
-- engine/internal/audio/format.go: the interleaved S16LE format. Go's `int` fields are signed.
pub mod Millis
use remoteau.Common.{ℕ, ◌*◌, ◌/◌, ◌%◌, Bool, Result, ok, reject_if, ◌>>◌, ◌==◌, not}
use remoteau.Common.Int.{ℤ, pos, pos_part, leb_ℤ}

pub record Format : Type 0 where
  pub rate : ℤ
  pub channels : ℤ
  pub frame_samples : ℤ

abbrev pub default_format : Format
default_format = record { rate = pos 48000; channels = pos 2; frame_samples = pos 480 }

pub data FormatError : Type 0 where
  bad_rate bad_channels bad_frame_millis not_whole bad_frame_samples : FormatError

abbrev not_positive : ℤ → Bool
not_positive n = leb_ℤ n (pos 0)

-- Past the three checks all numbers are positive, so `%` and `/` are those of ℕ.
unfoldable pub new_format : ℤ → ℤ → ℤ → Result FormatError Format
new_format rate channels frame_millis = do
  reject_if (not_positive rate) bad_rate
  reject_if (not_positive channels) bad_channels
  reject_if (not_positive frame_millis) bad_frame_millis
  let samples = pos_part rate * pos_part frame_millis
  reject_if (not (samples % 1000 == 0)) not_whole
  ok (record { rate = rate; channels = channels; frame_samples = pos (samples / 1000) })

unfoldable pub validate : Format → Result FormatError (Unit {0})
validate f = do
  reject_if (not_positive f.rate) bad_rate
  reject_if (not_positive f.channels) bad_channels
  reject_if (not_positive f.frame_samples) bad_frame_samples
  ok tt

-- `f.Channels * BytesPerSampleS16`, used on validated formats only.
unfoldable pub bytes_per_frame : Format → ℕ
bytes_per_frame f = pos_part f.channels * 2

unfoldable pub packet_bytes : Format → ℕ
packet_bytes f = pos_part f.frame_samples * bytes_per_frame f
