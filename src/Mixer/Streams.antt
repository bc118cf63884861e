-- ===== src/Mixer/Streams.antt =====
-- engine/internal/mixer/mixer.go: the streams of a mixer and the playback callback, which adds them
-- up. A stream and its buffer are one value; the list of streams is replaced as a whole, as in the
-- source.
pub mod Registry
pub mod Callback
pub mod Snapshot
mod Tests
use remoteau.Common.{
  ℕ, zero, suc, ◌+◌, ◌-◌, ◌*◌, ◌/◌, ◌%◌, min, Bool, true, false, not, ◌||◌, Option, none, some,
  List, [], ◌∷◌, ◌++◌, length, take, drop, replicate, map, copy_at, ltb, ◌==◌, if◌then◌else◌,
  Result, ok, err, reject_if, ◌>>=◌, ◌>>◌,
}
use remoteau.Common.Int.{ℤ, pos, pos_part, leb_ℤ}
use remoteau.Audio.Format.{Format, default_format, validate, bytes_per_frame}
use remoteau.Protocol.Streams.{bytes_equal}
use remoteau.Mixer.JitterBuffer as Buffers
use remoteau.Mixer.JitterBuffer.{JitterBuffer, new_jitter_buffer, is_zero_format, clear_prefix}
use remoteau.Mixer.Samples.{Floats, mix_s16, write_s16}

pub data Error : Type 0 where
  bad_buffer : Buffers.Error → Error
  no_id id_taken bad_gain : Error

abbrev pub buffer_error {ℓ} : {A : Type ℓ} → Result Buffers.Error A → Result Error A
buffer_error (ok a) = ok a
buffer_error (err e) = err (bad_buffer e)

module _ (F : Floats) where
  pub record Options : Type 0 where
    pub format : Format
    pub jitter : Buffers.Options
    pub master_gain : F.Float
    pub scratch_frames : ℤ

  pub record Stream : Type 0 where
    pub id : List ℕ
    pub name : List ℕ
    pub remote_addr : List ℕ
    pub buffer : JitterBuffer
    pub gain : F.Float

  pub record Mixer : Type 0 where
    pub format : Format
    pub bytes_per_frame : ℕ
    pub channels : ℕ
    pub jitter : Buffers.Options
    pub streams : List Stream
    pub scratch : List ℕ
    pub acc : List F.Float
    pub master_gain : F.Float

  -- The `&Mixer{...}` of the constructor.
  unfoldable pub fresh_mixer : Format → Buffers.Options → ℕ → F.Float → Mixer
  fresh_mixer format jitter frames gain = record {
    format = format;
    bytes_per_frame = bytes_per_frame format;
    channels = pos_part format.channels;
    jitter = jitter;
    streams = [];
    scratch = replicate (frames * bytes_per_frame format) 0;
    acc = replicate (frames * pos_part format.channels) (F.of_int (pos 0));
    master_gain = if F.equal gain (F.of_int (pos 0)) then F.of_int (pos 1) else gain;
  }

  -- `New`; the buffer that it makes only checks the options.
  unfoldable pub new_mixer : Options → Result Error Mixer
  new_mixer opts =
      let format = if is_zero_format opts.format then default_format else opts.format in
      let jitter = record opts.jitter { format = format } in
      let frames =
        if leb_ℤ opts.scratch_frames (pos 0)
        then pos_part format.frame_samples
        else pos_part opts.scratch_frames in
      do
        buffer_error (Buffers.as_error (validate format))
        buffer_error (new_jitter_buffer jitter) >>= λ b.
            ok (fresh_mixer format jitter frames opts.master_gain)

  abbrev pub has_id : List ℕ → List Stream → Bool
  has_id id [] = false
  has_id id (s ∷ rest) = let later = has_id id rest in if bytes_equal s.id id then true else later

  abbrev pub without_id : List ℕ → List Stream → List Stream
  without_id id [] = []
  without_id id (s ∷ rest) =
      let kept = without_id id rest in if bytes_equal s.id id then kept else s ∷ kept

  abbrev pub stream_of : List ℕ → List ℕ → List ℕ → JitterBuffer → Stream
  stream_of id name remote_addr buffer = record {
    id = id;
    name = name;
    remote_addr = remote_addr;
    buffer = buffer;
    gain = F.of_int (pos 1);
  }

  unfoldable pub add_stream : Mixer → List ℕ → List ℕ → List ℕ → Result Error (Mixer × Stream)
  add_stream m id name remote_addr = do
    reject_if (length id == 0) no_id
    buffer_error (new_jitter_buffer (record m.jitter { format = m.format })) >>= λ buffer.
        let s = stream_of id name remote_addr buffer in
        reject_if (has_id id m.streams) id_taken >>= λ _.
        ok (record m { streams = m.streams ++ (s ∷ []) }, s)

  unfoldable pub remove_stream : Mixer → List ℕ → Mixer × Bool
  remove_stream m id =
      if has_id id m.streams
      then (record m { streams = without_id id m.streams }, true)
      else (m, false)

  unfoldable pub set_gain : Stream → F.Float → Result Error Stream
  set_gain s gain = if not (F.is_gain gain) then err bad_gain else ok (record s { gain = gain })

  unfoldable pub set_master_gain : Mixer → F.Float → Result Error Mixer
  set_master_gain m gain =
      if not (F.is_gain gain) then err bad_gain else ok (record m { master_gain = gain })

  -- The inner loop: each stream fills `scratch`, which is added to `acc`. `free` says at which
  -- streams `TryLock` gets the mutex.
  unfoldable pub mix_streams :
      (List ℕ → Bool)
      → F.Float
      → ℕ
      → List Stream
      → List ℕ
      → List F.Float
      → List Stream × List ℕ × List F.Float
  mix_streams free gain frames [] scratch acc = ([], scratch, acc)
  mix_streams free gain frames (s ∷ rest) scratch acc =
      let (buffer, scratch1, n) = Buffers.read (free s.id) s.buffer scratch (pos frames) in
      let acc1 = mix_s16 F acc scratch1 (F.times gain s.gain) in
      let (rest', scratch2, acc2) = mix_streams free gain frames rest scratch1 acc1 in
      (record s { buffer = buffer } ∷ rest', scratch2, acc2)

  -- One round of the outer loop: `frames` frames from the frame `offset` of `out` on.
  unfoldable pub mix_chunk : (List ℕ → Bool) → F.Float → ℕ → ℕ → Mixer → List ℕ → Mixer × List ℕ
  mix_chunk free gain offset frames m out =
      let bytes = frames * m.bytes_per_frame in
      let acc = replicate (frames * m.channels) (F.of_int (pos 0)) in
      let (streams, scratch, acc1) =
        mix_streams free gain frames m.streams (take bytes m.scratch) acc in
      (
        record m {
          streams = streams;
          scratch = copy_at m.scratch 0 scratch;
          acc = acc1 ++ drop (frames * m.channels) m.acc;
        },
        copy_at out (offset * m.bytes_per_frame) (write_s16 F acc1),
      )

  -- The outer loop on fuel, `none` when the fuel does not do; `free` also goes by the offset.
  unfoldable pub mix_loop :
      ℕ → (ℕ → List ℕ → Bool) → F.Float → ℕ → ℕ → Mixer → List ℕ → Option (Mixer × List ℕ)
  mix_loop zero free gain offset frames m out = none
  mix_loop (suc fuel) free gain offset frames m out =
      let chunk = min (length m.scratch / m.bytes_per_frame) (frames - offset) in
      let (m', out') = mix_chunk (free offset) gain offset chunk m out in
      elim (ltb offset frames) [
        | false ↦ some (m, out)
        | true ↦ mix_loop fuel free gain (offset + chunk) frames m' out'
      ]

  -- The frames that fit into `out`.
  abbrev pub fit : Mixer → List ℕ → ℕ → ℕ
  fit m out frame_count = min frame_count (length out / m.bytes_per_frame)

  -- `Read`: `frames + 1` rounds are enough, since each but the last mixes a frame.
  unfoldable pub read : (ℕ → List ℕ → Bool) → Mixer → List ℕ → ℕ → Option (Mixer × List ℕ)
  read free m out frame_count =
      let frames = fit m out frame_count in
      let want = frames * m.bytes_per_frame in
      let cleared = take want out ++ replicate (length out - want) 0 in
      let gain = F.divide m.master_gain (F.of_int (pos (length m.streams))) in
      if frame_count == 0 || length out == 0
      then some (m, out)
      else if frames == 0
      then some (m, replicate (length out) 0)
      else if length m.streams == 0
      then some (m, clear_prefix cleared want)
      else mix_loop (frames + 1) free gain 0 frames m cleared
