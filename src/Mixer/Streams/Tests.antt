-- ===== src/Mixer/Streams/Tests.antt =====
-- engine/internal/mixer/mixer.go: a mixer of mono frames, with whole numbers for float32.
use remoteau.Common.{
  ℕ, ◌+◌, ◌*◌, ◌/◌, ◌-◌, ◌≡◌, refl, true, [], ◌∷◌, ◌++◌, replicate, ltb, leb, ◌==◌, ok,
}
use remoteau.Common.Int.{pos, pos_part}
use remoteau.Audio.Format.{Format, validate}
use remoteau.Mixer.JitterBuffer
use remoteau.Mixer.JitterBuffer.{new_jitter_buffer, fresh}
use remoteau.Mixer.Samples.{Floats}
use remoteau.Mixer.Streams.{Mixer, Stream, stream_of, add_stream, remove_stream}
use remoteau.Mixer.Streams.Registry.{IsRegistry, remove_stream-add_stream}
use remoteau.Mixer.JitterBuffer.{queued_frames}

-- Samples that are not negative.
abbrev whole : Floats
whole = record {
  Float = ℕ;
  of_int = pos_part;
  half = 0;
  plus = λ a b. a + b;
  minus = λ a b. a - b;
  times = λ a b. a * b;
  divide = λ a b. a / b;
  less = ltb;
  less_equal = leb;
  equal = λ a b. a == b;
  truncate = pos;
  is_gain = λ a. true;
}

abbrev mono : Format
mono = record { rate = pos 1000; channels = pos 1; frame_samples = pos 2 }

abbrev options : JitterBuffer.Options
options = record { format = mono; target_frames = pos 2; high_watermark_frames = pos 3 }

abbrev silent : Mixer whole
silent = record {
  format = mono;
  bytes_per_frame = 2;
  channels = 1;
  jitter = options;
  streams = [];
  scratch = replicate 4 0;
  acc = replicate 2 0;
  master_gain = 1;
}

abbrev phone : Stream whole
phone = stream_of whole (112 ∷ []) (80 ∷ []) (49 ∷ []) (fresh mono 2 3)

abbrev one_stream : Mixer whole
one_stream = record silent { streams = phone ∷ [] }

add_stream-phone : add_stream whole silent (112 ∷ []) (80 ∷ []) (49 ∷ []) ≡ ok (one_stream, phone)
unfolding add_stream new_jitter_buffer validate
add_stream-phone = refl

silent-IsRegistry : IsRegistry whole silent
silent-IsRegistry = record { distinct = tt; buffers = tt }

remove_stream-add_stream_example :
    IsRegistry whole one_stream
    × (one_stream.streams ≡ [] ++ (phone ∷ []))
    × (phone.id ≡ 112 ∷ [])
    × (phone.buffer.used ≡ 0)
    × (remove_stream whole one_stream (112 ∷ []) ≡ (silent, true))
remove_stream-add_stream_example =
    remove_stream-add_stream whole silent (112 ∷ []) (80 ∷ []) (49 ∷ []) silent-IsRegistry
      add_stream-phone
