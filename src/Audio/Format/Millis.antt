-- ===== src/Audio/Format/Millis.antt =====
-- engine/internal/audio/format.go: the formats that `NewFormat` makes.
use remoteau.Common.{◌*◌, ◌/◌, ◌%◌, ◌<◌, ◌≡◌, refl, ok, arith}
use remoteau.Common.Int.{ℤ, pos, pos_part}
use remoteau.Audio.Format.{Format, new_format, validate, packet_bytes, bytes_per_frame}

-- What the checks of `NewFormat` let through.
new_format-inv :
    (rate channels millis : ℤ) {f : Format}
    → new_format rate channels millis ≡ ok f
    → let samples = pos_part rate * pos_part millis in
      (0 < pos_part rate)
      × (0 < pos_part channels)
      × (0 < pos_part millis)
      × (samples % 1000 ≡ 0)
      × (record { rate = rate; channels = channels; frame_samples = pos (samples / 1000) } ≡ f)
unfolding new_format
new_format-inv rate channels millis {f} e = ground arith

validate-positive :
    (f : Format)
    → 0 < pos_part f.rate
    → 0 < pos_part f.channels
    → 0 < pos_part f.frame_samples
    → validate f ≡ ok tt
unfolding validate
validate-positive f r c s = ground arith

-- A format that `NewFormat` makes passes `Validate`, lasts exactly the milliseconds asked for, and
-- its packets hold the bytes of those samples on every channel.
pub new_format-validate :
    (rate channels millis : ℤ) {f : Format}
    → new_format rate channels millis ≡ ok f
    → (validate f ≡ ok tt)
      × (pos_part f.frame_samples * 1000 ≡ pos_part rate * pos_part millis)
      × (packet_bytes f ≡ pos_part f.frame_samples * (pos_part channels * 2))
unfolding packet_bytes bytes_per_frame
new_format-validate rate channels millis {f} e =
    let (r, c, m, whole, same) = new_format-inv rate channels millis e in
    let samples = pos_part rate * pos_part millis in
    let some : 0 < samples = grind (arith, r, m) in
    let exact : samples / 1000 * 1000 ≡ samples = omega (arith, whole) in
    let positive : 0 < samples / 1000 = omega (arith, exact, some) in
    rw (← same) (validate-positive _ r c positive, exact, refl)
