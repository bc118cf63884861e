-- ===== src/Mixer/JitterBuffer/Tests.antt =====
-- engine/internal/mixer/jitterbuffer.go: runs on concrete buffers.
use remoteau.Common.{◌≡◌, refl, true, false, [], ◌∷◌, arith, ok, err}
use remoteau.Common.Int.{pos}
use remoteau.Audio.Format.{Format, validate}
use remoteau.Mixer.JitterBuffer.{
  JitterBuffer, Options, new_jitter_buffer, target_above_high, read, wanted, fresh, queued_frames,
}
use remoteau.Mixer.JitterBuffer.Inv.{IsValid, contents}
use remoteau.Mixer.JitterBuffer.Reading.{Played}
use remoteau.Mixer.JitterBuffer.Playing.{read-Played}

abbrev mono : Format
mono = record { rate = pos 1000; channels = pos 1; frame_samples = pos 1 }

abbrev options : Options
options = record { format = mono; target_frames = pos 2; high_watermark_frames = pos 3 }

-- Two bytes a frame, three frames; two of them are queued, round the end of the storage.
abbrev queued : JitterBuffer
queued = record {
  format = mono;
  frame_bytes = 2;
  buf = 3 ∷ 4 ∷ 9 ∷ 9 ∷ 1 ∷ 2 ∷ [];
  read = 4;
  used = 4;
  target_frames = 2;
  high_frames = 3;
  primed = false;
  discarded_frames = 0;
  underrun_frames = 0;
  queue_frames = 2;
}

queued-IsValid : IsValid queued
queued-IsValid = omega arith

contents-queued : contents queued ≡ 1 ∷ 2 ∷ 3 ∷ 4 ∷ []
contents-queued = refl

new_jitter_buffer-mono : new_jitter_buffer options ≡ ok (fresh mono 2 3)
unfolding new_jitter_buffer validate
new_jitter_buffer-mono = refl

new_jitter_buffer-inverted :
    new_jitter_buffer (record options { target_frames = pos 4 }) ≡ err target_above_high
unfolding new_jitter_buffer validate
new_jitter_buffer-inverted = refl

read-Played_example :
    Played queued (0 ∷ 0 ∷ 0 ∷ 0 ∷ []) 2 (read true queued (0 ∷ 0 ∷ 0 ∷ 0 ∷ []) (pos 5))
unfolding wanted queued_frames
read-Played_example =
    read-Played queued (0 ∷ 0 ∷ 0 ∷ 0 ∷ []) (pos 5) queued-IsValid (λ e. omega arith) refl
