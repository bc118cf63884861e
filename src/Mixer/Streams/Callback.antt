-- ===== src/Mixer/Streams/Callback.antt =====
-- engine/internal/mixer/mixer.go: the playback callback.
use remoteau.Common.{ℕ, ◌-◌, ◌≡◌, Option, some, List, ◌++◌, length, take, replicate}
use remoteau.Mixer.JitterBuffer.{JitterBuffer}
use remoteau.Mixer.Samples.{Floats}
use remoteau.Mixer.Streams.{Mixer, Stream, has_id}
use remoteau.Mixer.Streams.Registry.{HasDistinctIds, HasValidBuffers, IsRegistry}

module _ (F : Floats) where
  -- The same streams, in the same order, as far as their ids say, with valid buffers.
  pub record Advanced (ss ss' : List (Stream F)) : Type 0 where
    pub ids : (id : List ℕ) → has_id F id ss' ≡ has_id F id ss
    pub distinct : HasDistinctIds F ss'
    pub buffers : HasValidBuffers F ss'
    pub count : length ss' ≡ length ss

  -- What a round or the whole loop leaves of the mixer and the output.
  pub record Mixed (m : Mixer F) (out : List ℕ) (m' : Mixer F) (out' : List ℕ) : Type 0 where
    pub ids : (id : List ℕ) → has_id F id m'.streams ≡ has_id F id m.streams
    pub registry : IsRegistry F m'
    pub count : length m'.streams ≡ length m.streams
    pub same_size : m'.bytes_per_frame ≡ m.bytes_per_frame
    pub same_scratch : length m'.scratch ≡ length m.scratch
    pub same_length : length out' ≡ length out

  abbrev pub Mixes : Mixer F → List ℕ → Option (Mixer F × List ℕ) → Type 0
  Mixes m out result =
      (m' : Mixer F) × (out' : List ℕ) × (result ≡ some (m', out')) × Mixed m out m' out'

  -- `out` with what does not hold a whole frame cleared.
  abbrev cleared : List ℕ → ℕ → List ℕ
  cleared out want = take want out ++ replicate (length out - want) 0
