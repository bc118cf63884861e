-- ===== src/Mixer/Samples.antt =====
-- engine/internal/mixer/mixer.go: 16-bit samples and their float32 sums. float32 is a parameter.
use remoteau.Common.{
  ℕ, suc, ◌+◌, ◌-◌, ◌*◌, ◌%◌, ◌^◌, ◌≡◌, refl, ap, Bool, List, [], ◌∷◌, ◌++◌, length, ltb,
  if◌then◌else◌, arith,
}
use remoteau.Common.Int.{ℤ, pos, negsuc}
use remoteau.Common.Bytes.{le16}

-- float32: an int as a float and back (which truncates), the operations, and a comparison.
pub record Floats : Type 1 where
  pub Float : Type 0
  pub of_int : ℤ → Float
  pub half : Float
  pub plus : Float → Float → Float
  pub minus : Float → Float → Float
  pub times : Float → Float → Float
  pub divide : Float → Float → Float
  pub less : Float → Float → Bool
  pub less_equal : Float → Float → Bool
  pub equal : Float → Float → Bool
  pub truncate : Float → ℤ
  -- Neither negative, nor NaN, nor infinite.
  pub is_gain : Float → Bool

-- `int16` of a uint16, and `uint16` of an int16.
abbrev pub to_i16 : ℕ → ℤ
to_i16 n = if ltb n (2 ^ 15) then pos n else negsuc (2 ^ 16 - 1 - n)

abbrev pub to_u16 : ℤ → ℕ
to_u16 (pos n) = n % 2 ^ 16
to_u16 (negsuc n) = 2 ^ 16 - 1 - n % 2 ^ 16

module _ (F : Floats) where
  -- `mixS16LE`; a slice of PCM that is too short does not occur.
  unfoldable pub mix_s16 : List F.Float → List ℕ → F.Float → List F.Float
  mix_s16 (a ∷ acc) (lo ∷ hi ∷ pcm) gain =
      F.plus a (F.times (F.of_int (to_i16 (lo + hi * 256))) gain) ∷ mix_s16 acc pcm gain
  mix_s16 acc _ gain = acc

  unfoldable pub clamp_s16 : F.Float → ℤ
  clamp_s16 v =
      if F.less (F.of_int (pos 32767)) v
      then pos 32767
      else if F.less v (F.of_int (negsuc 32767))
      then negsuc 32767
      else if F.less_equal (F.of_int (pos 0)) v
      then F.truncate (F.plus v F.half)
      else F.truncate (F.minus v F.half)

  -- The bytes that `writeS16LE` puts at the front of its destination.
  unfoldable pub write_s16 : List F.Float → List ℕ
  write_s16 [] = []
  write_s16 (v ∷ acc) = le16 (to_u16 (clamp_s16 v)) ++ write_s16 acc

  pub length-mix_s16 :
      (acc : List F.Float) (pcm : List ℕ) (gain : F.Float)
      → length (mix_s16 acc pcm gain) ≡ length acc
  unfolding mix_s16
  length-mix_s16 [] pcm gain = refl
  length-mix_s16 (a ∷ acc) [] gain = refl
  length-mix_s16 (a ∷ acc) (lo ∷ []) gain = refl
  length-mix_s16 (a ∷ acc) (lo ∷ hi ∷ pcm) gain = ap suc (length-mix_s16 acc pcm gain)

  pub length-write_s16 : (acc : List F.Float) → length (write_s16 acc) ≡ length acc * 2
  unfolding write_s16
  length-write_s16 [] = refl
  length-write_s16 (v ∷ acc) = omega (arith, length-write_s16 acc)
