-- ===== src/Engine/Media.antt =====
-- engine/internal/engine/media.go: `clientMedia`, which orders the frames of a v2 stream, conceals
-- what is missing and hands decoded PCM on. The codec (libopus or PCM) and the float64 arithmetic
-- of the averages are parameters; times are nanoseconds on a clock that does not run backwards.
pub mod Span
pub mod Emit
pub mod Rounds
pub mod Flush
pub mod Tick
pub mod Accept
pub mod Duplicate
mod Tests
use remoteau.Common.{
  zero, suc, ℕ, ◌+◌, ◌-◌, ◌*◌, ◌/◌, ◌%◌, ◌^◌, Bool, true, false, not, ◌&&◌, ◌||◌, Option, none,
  some, List, [], ◌∷◌, ◌++◌, length, ltb, leb, ◌==◌, max, if◌then◌else◌,
}
use remoteau.Common.Assoc.{lookup, delete, insert}

pub record Outside : Type 1 where
  -- `codec.Codec`: each decoder changes the codec's state, and gives PCM or an error.
  pub Codec : Type 0
  pub decode_frame : Codec → Option (List ℕ) → Bool → Codec × Option (List ℕ)
  -- `codec.FECDecoder`, where the codec has it.
  pub has_fec : Bool
  pub decode_fec : Codec → List ℕ → Codec × Option (List ℕ)
  -- float64: a quotient of numbers, the operations, and a duration in seconds.
  pub Float : Type 0
  pub quotient : ℕ → ℕ → Float
  pub plus : Float → Float → Float
  pub minus : Float → Float → Float
  pub times : Float → Float → Float
  pub less : Float → Float → Bool
  pub seconds : ℕ → Float

-- The frame duration, 10 ms unless the codec says another one.
abbrev frame_millis : Option ℕ → ℕ
frame_millis none = 10
frame_millis (some ms) = if ms == 0 then 10 else ms

-- `int32(seq - m.nextSeq)` is negative from 2^31 on.
abbrev pub ahead : ℕ → ℕ → ℕ
ahead next_seq seq = (seq + 2 ^ 32 - next_seq) % 2 ^ 32

module _ (O : Outside) where
  -- `connected` says that neither `out` nor `codec` is nil; `delivered` is what `out` was called
  -- with, in order.
  pub record ClientMedia : Type 0 where
    pub codec : O.Codec
    pub connected : Bool
    pub delivered : List (List ℕ)
    pub next_seq : ℕ
    pub seen : Bool
    pub future : List (ℕ × List ℕ)
    pub hold_period : ℕ
    pub last_flush : ℕ
    pub packets_seen : ℕ
    pub loss_packets : ℕ
    pub late_packets : ℕ
    pub reordered_packets : ℕ
    pub concealed_frames : ℕ
    pub fec_recovered_frames : ℕ
    pub loss_ewma : O.Float
    pub late_ewma : O.Float
    pub jitter_ms_ewma : O.Float
    pub buf_ms_ewma : O.Float
    pub last_arrival : Option ℕ
    pub burst_loss : ℕ
    pub max_burst_loss : ℕ
    pub total_loss_frames : ℕ
    pub frame_ms : O.Float

  -- `x += a * (y - x)`
  abbrev pub smooth : O.Float → O.Float → O.Float → O.Float
  smooth a x y = O.plus x (O.times a (O.minus y x))

  -- The counters of one lost frame.
  unfoldable pub count_loss : ClientMedia → ClientMedia
  count_loss m = record m {
    loss_packets = (m.loss_packets + 1) % 2 ^ 64;
    total_loss_frames = (m.total_loss_frames + 1) % 2 ^ 64;
    loss_ewma = smooth (O.quotient 5 100) m.loss_ewma (O.quotient 1 1);
    burst_loss = m.burst_loss + 1;
    max_burst_loss = max m.max_burst_loss (m.burst_loss + 1);
  }

  -- What `emit` does with the decoder's answer.
  unfoldable pub deliver : ClientMedia → Bool → O.Codec × Option (List ℕ) → ClientMedia
  deliver m lost (codec, none) = record m { codec = codec }
  deliver m lost (codec, some pcm) = record m {
    codec = codec;
    concealed_frames =
        if lost then (m.concealed_frames + length pcm / 4) % 2 ^ 64 else m.concealed_frames;
    delivered = m.delivered ++ (pcm ∷ []);
  }

  unfoldable pub emit : ClientMedia → Option (List ℕ) → Bool → ClientMedia
  emit m wire lost =
      let counted = if lost then count_loss m else record m { burst_loss = 0 } in
      if not m.connected then m else deliver counted lost (O.decode_frame m.codec wire lost)

  -- What `emitFEC` does with the decoder's answer; PCM of no bytes counts as a failure.
  unfoldable pub recover : ClientMedia → O.Codec × Option (List ℕ) → Bool × ClientMedia
  recover m (codec, none) = (false, record m { codec = codec })
  recover m (codec, some pcm) =
      let counted = count_loss (record m { codec = codec }) in
      if length pcm == 0 then (false, record m { codec = codec }) else (
        true,
        record counted {
          fec_recovered_frames = (m.fec_recovered_frames + 1) % 2 ^ 64;
          delivered = m.delivered ++ (pcm ∷ []);
        },
      )

  unfoldable pub emit_fec : ClientMedia → List ℕ → Bool × ClientMedia
  emit_fec m wire =
      if not m.connected || length wire == 0
      then (false, m)
      else if not O.has_fec
      then (false, m)
      else recover m (O.decode_fec m.codec wire)

  -- `m.nextSeq++`
  abbrev pub advance : ClientMedia → ClientMedia
  advance m = record m { next_seq = (m.next_seq + 1) % 2 ^ 32 }

  -- One missing frame: from the frame behind it if that is held and can give it, else concealed.
  abbrev try_recover : ClientMedia → Option (List ℕ) → Bool × ClientMedia
  try_recover m none = (false, m)
  try_recover m (some next) = emit_fec m next

  unfoldable pub conceal : ClientMedia → ClientMedia
  conceal m =
      let (recovered, m1) = try_recover m (lookup ((m.next_seq + 1) % 2 ^ 32) m.future) in
      if recovered then advance m1 else emit (advance m1) none true

  -- One round of the loop of `flush`; `none` is its `break`.
  abbrev round : Bool → ClientMedia → Option (List ℕ) → Option ClientMedia
  round force m (some buf) =
      some (emit (advance (record m { future = delete m.next_seq m.future })) (some buf) false)
  round force m none =
      if length m.future == 0 then none else if not force then none else some (conceal m)

  unfoldable pub flush_round : Bool → ClientMedia → Option ClientMedia
  flush_round force m = round force m (lookup m.next_seq m.future)

  -- The loop on fuel: `none` when the fuel does not do. One round for each sequence number and one
  -- for the `break` are always enough.
  unfoldable pub flush_loop : ℕ → Bool → ClientMedia → Option ClientMedia
  flush_loop zero force m = none
  flush_loop (suc fuel) force m = elim (flush_round force m) [
    | none ↦ some m
    | some m' ↦ flush_loop fuel force m'
  ]

  -- The average depth of the window, in milliseconds.
  abbrev pub measure_depth : ClientMedia → ClientMedia
  measure_depth m = record m {
    buf_ms_ewma =
        smooth (O.quotient 2 10) m.buf_ms_ewma
          (O.times (O.quotient (length m.future) 1) m.frame_ms);
  }

  abbrev pub measured : Option ClientMedia → Option ClientMedia
  measured none = none
  measured (some m) = some (measure_depth m)

  -- A forced flush conceals what is missing; any other one waits until the hold period is over.
  unfoldable pub flush : ℕ → Bool → ClientMedia → Option ClientMedia
  flush now force m =
      if not m.seen
      then some m
      else if not force && ltb (now - m.last_flush) m.hold_period
      then some m
      else measured (flush_loop (2 ^ 32 + 1) force (record m { last_flush = now }))

  -- The average distance of an arrival from the frame period.
  abbrev pub measure_jitter : ℕ → Option ℕ → ClientMedia → ClientMedia
  measure_jitter now none m = m
  measure_jitter now (some last) m =
      let dev = O.minus (O.times (O.seconds (now - last)) (O.quotient 1000 1)) m.frame_ms in
      let zero_float = O.quotient 0 1 in
      let size = if O.less dev zero_float then O.minus zero_float dev else dev in
      if O.less zero_float m.frame_ms
      then record m { jitter_ms_ewma = smooth (O.quotient 1 10) m.jitter_ms_ewma size }
      else m

  -- `accept` up to the first branch.
  unfoldable pub arrive : ℕ → ClientMedia → ClientMedia
  arrive now m =
      record (measure_jitter now m.last_arrival
        (record m { packets_seen = (m.packets_seen + 1) % 2 ^ 64 })) { last_arrival = some now }

  unfoldable pub accept_first : ℕ → ℕ → List ℕ → ClientMedia → ClientMedia
  accept_first now seq buf m =
      record (emit (record m { seen = true; next_seq = (seq + 1) % 2 ^ 32 }) (some buf) false) {
        last_flush = now;
      }

  unfoldable pub accept_late : ClientMedia → ClientMedia
  accept_late m = record m {
    late_packets = (m.late_packets + 1) % 2 ^ 64;
    late_ewma = smooth (O.quotient 5 100) m.late_ewma (O.quotient 1 1);
  }

  unfoldable pub accept_next : ℕ → List ℕ → ClientMedia → ClientMedia
  accept_next seq buf m = record (emit m (some buf) false) { next_seq = (seq + 1) % 2 ^ 32 }

  unfoldable pub accept_future : ℕ → List ℕ → ClientMedia → ClientMedia
  accept_future seq buf m = record m {
    reordered_packets = (m.reordered_packets + 1) % 2 ^ 64;
    future = if ltb (length m.future) 64 then insert seq buf m.future else m.future;
  }

  -- `accept`; the flags are not read.
  unfoldable pub accept : ℕ → ℕ → List ℕ → ClientMedia → Option ClientMedia
  accept now seq payload m =
      let m1 = arrive now m in
      let delta = ahead m.next_seq seq in
      if not m.seen
      then some (accept_first now seq payload m1)
      else if leb (2 ^ 31) delta
      then some (accept_late m1)
      else if delta == 0
      then flush now false (accept_next seq payload m1)
      else flush now false (accept_future seq payload m1)

  unfoldable pub tick : ℕ → ClientMedia → Option ClientMedia
  tick now m = if m.seen then flush now true m else some m

  -- `newClientMedia`; `config_ms` is the frame duration of the codec, if there is a codec.
  unfoldable pub new_client_media : O.Codec → Bool → Option ℕ → ClientMedia
  new_client_media codec connected config_ms =
      let ms = frame_millis config_ms in
      let zero_float = O.quotient 0 1 in
      record {
        codec = codec;
        connected = connected;
        delivered = [];
        next_seq = 0;
        seen = false;
        future = [];
        hold_period = max (ms * 3 / 2 * 1000000) 2000000;
        last_flush = 0;
        packets_seen = 0;
        loss_packets = 0;
        late_packets = 0;
        reordered_packets = 0;
        concealed_frames = 0;
        fec_recovered_frames = 0;
        loss_ewma = zero_float;
        late_ewma = zero_float;
        jitter_ms_ewma = zero_float;
        buf_ms_ewma = zero_float;
        last_arrival = none;
        burst_loss = 0;
        max_burst_loss = 0;
        total_loss_frames = 0;
        frame_ms = O.quotient ms 1;
      }
