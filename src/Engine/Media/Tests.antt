-- ===== src/Engine/Media/Tests.antt =====
-- engine/internal/engine/media.go: a stream of PCM frames of four bytes.
use remoteau.Common.{
  ℕ, ◌+◌, ◌-◌, ◌*◌, ◌/◌, ◌^◌, ◌≡◌, ◌≤◌, refl, Bool, true, false, Option, none, some, List, [], ◌∷◌,
  length, ltb, arith,
}
use remoteau.Engine.Media.{
  Outside, ClientMedia, new_client_media, accept, tick, flush, flush_loop, flush_round, emit,
  emit_fec, conceal, deliver, count_loss,
}
use remoteau.Engine.Media.Span.{span}
use remoteau.Engine.Media.Flush.{IsWindow}
use remoteau.Engine.Media.Tick.{Emptied, tick-Emptied}
use remoteau.Engine.Media.Accept.{accept-IsWindow}
use remoteau.Engine.Media.Duplicate.{accept-duplicate}

abbrev pcm_frame : Option (List ℕ) → Bool → Option (List ℕ)
pcm_frame none lost = some (0 ∷ 0 ∷ 0 ∷ 0 ∷ [])
pcm_frame (some wire) lost = some wire

-- The PCM codec, which conceals with silence and has no error correction; whole numbers stand in
-- for the averages.
abbrev pcm : Outside
pcm = record {
  Codec = Unit;
  decode_frame = λ c wire lost. (c, pcm_frame wire lost);
  has_fec = false;
  decode_fec = λ c wire. (c, none);
  Float = ℕ;
  quotient = λ a b. a / b;
  plus = λ a b. a + b;
  minus = λ a b. a - b;
  times = λ a b. a * b;
  less = ltb;
  seconds = λ t. t / 1000000000;
}

-- Frame 7 is next; 7 and 9 are held.
abbrev waiting : ClientMedia pcm
waiting = record (new_client_media pcm tt true none) {
  connected = true;
  seen = true;
  next_seq = 7;
  future = (9, 9 ∷ 9 ∷ 9 ∷ 9 ∷ []) ∷ (7, 7 ∷ 7 ∷ 7 ∷ 7 ∷ []) ∷ [];
  hold_period = 15000000;
}

waiting-IsWindow : IsWindow pcm waiting
waiting-IsWindow = record {
  seq_in = omega arith;
  keys_in = (omega arith, (omega arith, tt));
  distinct = (refl, (refl, tt));
}

-- Frame 8 is concealed, between 7 and 9.
abbrev emptied : ClientMedia pcm
emptied = record waiting {
  future = [];
  next_seq = 10;
  last_flush = 1000;
  delivered = (7 ∷ 7 ∷ 7 ∷ 7 ∷ []) ∷ (0 ∷ 0 ∷ 0 ∷ 0 ∷ []) ∷ (9 ∷ 9 ∷ 9 ∷ 9 ∷ []) ∷ [];
  loss_packets = 1;
  total_loss_frames = 1;
  concealed_frames = 1;
  max_burst_loss = 1;
}

tick-waiting : tick pcm 1000 waiting ≡ some emptied
unfolding tick flush flush_loop flush_round emit emit_fec conceal deliver count_loss
    new_client_media
tick-waiting = refl

tick-Emptied_example :
    (m' : ClientMedia pcm) × (tick pcm 1000 waiting ≡ some m')
    × Emptied pcm (span 7 waiting.future) waiting m'
tick-Emptied_example = tick-Emptied pcm 1000 waiting waiting-IsWindow refl refl

accept-IsWindow_example :
    (m' : ClientMedia pcm) × (accept pcm 1000 8 (8 ∷ 8 ∷ 8 ∷ 8 ∷ []) waiting ≡ some m')
    × IsWindow pcm m'
    × (length m'.future ≤ 64)
accept-IsWindow_example =
    accept-IsWindow pcm 1000 8 (8 ∷ 8 ∷ 8 ∷ 8 ∷ []) waiting waiting-IsWindow (omega arith)
      (omega arith)

accept-duplicate_example :
    (m1 : ClientMedia pcm) × (m2 : ClientMedia pcm) × (accept pcm 1000 7
        (7 ∷ 7 ∷ 7 ∷ 7 ∷ [])
        waiting
      ≡ some m1)
    × (tick pcm 2000 m1 ≡ some m2)
    × Emptied pcm (2 ^ 32) m1 m2
accept-duplicate_example =
    accept-duplicate pcm 1000 2000 (7 ∷ 7 ∷ 7 ∷ 7 ∷ []) waiting waiting-IsWindow refl refl refl
      (omega arith)
