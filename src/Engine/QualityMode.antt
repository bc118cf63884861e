-- ===== src/Engine/QualityMode.antt =====
-- engine/internal/engine/qualitymode.go: the presets of a receiver.
use remoteau.Common.{ℕ, ◌≤◌, ◌<◌, ◌≡◌, Bool, true, false, ◌==◌, if◌then◌else◌, arith}
use remoteau.Common.Int.{pos}
use remoteau.Quality.Controller.{Floats, new_controller}
use remoteau.Quality.Controller.Inv.{IsValid, new_controller-IsValid}

-- The four results of `qualityModeToBounds`.
pub record Bounds : Type 0 where
  pub min_bitrate : ℕ
  pub max_bitrate : ℕ
  pub fec_bias : Bool
  pub apply : Bool

abbrev bounds : ℕ → ℕ → Bool → Bounds
bounds low high fec = record { min_bitrate = low; max_bitrate = high; fec_bias = fec; apply = true }

unfoldable pub quality_mode_to_bounds : ℕ → Bounds
quality_mode_to_bounds mode =
    if mode == 0
    then bounds 32000 256000 false
    else if mode == 1
    then bounds 32000 64000 false
    else if mode == 2
    then bounds 64000 256000 false
    else if mode == 3
    then bounds 32000 128000 true
    else record { min_bitrate = 0; max_bitrate = 0; fec_bias = false; apply = false }

-- Bounds in the range of the codec are taken as they are.
new_controller-bounds :
    (F : Floats) (low high : ℕ)
    → 0 < low
    → low ≤ high
    → high ≤ 510000
    → let c = new_controller F (pos low) (pos high) in
      (c.min_bitrate ≡ low) × (c.max_bitrate ≡ high)
unfolding new_controller
new_controller-bounds F low high some below fits = (ground arith, ground arith)

preset-bounds :
    (mode : ℕ)
    → let b = quality_mode_to_bounds mode in
      b.apply ≡ true
      → (0 < b.min_bitrate) × (b.min_bitrate ≤ b.max_bitrate) × (b.max_bitrate ≤ 510000)
unfolding quality_mode_to_bounds
preset-bounds mode e = ground arith

-- The bounds of a preset that the host applies are those of the controller that it builds from
-- them: nothing is clamped, and the controller is valid.
pub quality_mode_to_bounds-IsValid :
    (F : Floats) (mode : ℕ)
    → (quality_mode_to_bounds mode).apply ≡ true
    → let b = quality_mode_to_bounds mode in
      let c = new_controller F (pos b.min_bitrate) (pos b.max_bitrate) in
      IsValid F c × (c.min_bitrate ≡ b.min_bitrate) × (c.max_bitrate ≡ b.max_bitrate)
quality_mode_to_bounds-IsValid F mode e =
    let b = quality_mode_to_bounds mode in
    let (some, below, fits) = preset-bounds mode e in
    let valid =
      (new_controller-IsValid F (pos b.min_bitrate) (pos b.max_bitrate)).0 (omega arith) in
    let (low, high) = new_controller-bounds F b.min_bitrate b.max_bitrate some below fits in
    (valid, low, high)
