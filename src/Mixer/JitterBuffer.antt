-- ===== src/Mixer/JitterBuffer.antt =====
-- engine/internal/mixer/jitterbuffer.go: PCM frames between the network and the playback callback.
-- A call is a function from the buffer to the buffer; whether `Read`'s `TryLock` got the mutex is
-- an argument. The atomic counters are fields, the uint64 ones with their wrap.
pub mod Inv
pub mod Put
pub mod Writing
pub mod Reading
pub mod Playing
pub mod Report
mod Tests
use remoteau.Common.{
  ℕ, ◌+◌, ◌-◌, ◌*◌, ◌/◌, ◌%◌, ◌^◌, min, Bool, true, false, not, ◌&&◌, ◌||◌, List, length, take,
  drop, replicate, copy_at, ltb, leb, ◌==◌, if◌then◌else◌, Result, ok, err, reject_if, ◌>>=◌, ◌>>◌,
}
use remoteau.Common.Int.{ℤ, pos, pos_part, negsuc, leb_ℤ}
use remoteau.Common.Circular.{copy_in, copy_out}
use remoteau.Audio.Format.{Format, FormatError, default_format, validate, bytes_per_frame}

pub record Options : Type 0 where
  pub format : Format
  pub target_frames : ℤ
  pub high_watermark_frames : ℤ

pub record JitterBuffer : Type 0 where
  pub format : Format
  pub frame_bytes : ℕ
  pub buf : List ℕ
  pub read : ℕ
  pub used : ℕ
  pub target_frames : ℕ
  pub high_frames : ℕ
  pub primed : Bool
  pub discarded_frames : ℕ
  pub underrun_frames : ℕ
  pub queue_frames : ℕ

pub data Error : Type 0 where
  bad_format : FormatError → Error
  target_above_high : Error

abbrev pub is_zero : ℤ → Bool
is_zero (pos n) = n == 0
is_zero (negsuc n) = false

-- `format == (audio.Format{})`
abbrev pub is_zero_format : Format → Bool
is_zero_format f = is_zero f.rate && (is_zero f.channels && is_zero f.frame_samples)

pub millis_to_frames : ℕ → ℕ → ℕ
millis_to_frames rate millis = if ltb (rate * millis / 1000) 1 then 1 else rate * millis / 1000

-- A watermark that is not positive stands for the default of so many milliseconds.
abbrev pub frames_or : ℤ → ℕ → ℕ → ℕ
frames_or n rate millis = if leb_ℤ n (pos 0) then millis_to_frames rate millis else pos_part n

abbrev pub as_error : Result FormatError (Unit {0}) → Result Error (Unit {0})
as_error (ok u) = ok u
as_error (err e) = err (bad_format e)

-- The `&JitterBuffer{...}` of the constructor.
pub fresh : Format → ℕ → ℕ → JitterBuffer
fresh format target high = record {
  format = format;
  frame_bytes = bytes_per_frame format;
  buf = replicate (high * bytes_per_frame format) 0;
  read = 0;
  used = 0;
  target_frames = target;
  high_frames = high;
  primed = false;
  discarded_frames = 0;
  underrun_frames = 0;
  queue_frames = 0;
}

-- Both watermarks are positive by then, so the check for that in the source never fails.
unfoldable pub new_jitter_buffer : Options → Result Error JitterBuffer
new_jitter_buffer opts =
    let format = if is_zero_format opts.format then default_format else opts.format in
    let target = frames_or opts.target_frames (pos_part format.rate) 60 in
    let high = frames_or opts.high_watermark_frames (pos_part format.rate) 80 in
    do
      as_error (validate format)
      reject_if (ltb high target) target_above_high
      ok (fresh format target high)

pub queued_frames : JitterBuffer → ℕ
queued_frames b = b.used / b.frame_bytes

pub add_discarded : JitterBuffer → ℕ → JitterBuffer
add_discarded b n = record b { discarded_frames = (b.discarded_frames + n) % 2 ^ 64 }

pub add_underrun : JitterBuffer → ℕ → JitterBuffer
add_underrun b n = record b { underrun_frames = (b.underrun_frames + n) % 2 ^ 64 }

pub drop_oldest_locked : JitterBuffer → ℕ → JitterBuffer
unfolding queued_frames
drop_oldest_locked b frames =
    let dropped = min frames (queued_frames b) in
    let drop_bytes = dropped * b.frame_bytes in
    if frames == 0 || b.used == 0
    then b
    else add_discarded
        (record b { read = (b.read + drop_bytes) % length b.buf; used = b.used - drop_bytes })
        dropped

pub write_locked : JitterBuffer → List ℕ → JitterBuffer
write_locked b pcm = record b {
  buf = copy_in b.buf ((b.read + b.used) % length b.buf) pcm;
  used = b.used + length pcm;
}

pub store_queue_frames : JitterBuffer → JitterBuffer
unfolding queued_frames
store_queue_frames b = record b { queue_frames = queued_frames b }

-- `if !b.primed && queued >= target { b.primed = true }`
pub prime : JitterBuffer → JitterBuffer
unfolding queued_frames
prime b =
    if not b.primed && leb b.target_frames (queued_frames b) then record b { primed = true } else b

-- `Write` from the point where `pcm` has been cut to at most `highFrames` whole frames.
pub put : JitterBuffer → List ℕ → ℕ → JitterBuffer
unfolding queued_frames
put b pcm frames =
    let excess = queued_frames b + frames - b.high_frames in
    let b1 = if ltb 0 excess then drop_oldest_locked b excess else b in
    store_queue_frames (prime (write_locked b1 pcm))

pub write : JitterBuffer → List ℕ → JitterBuffer × ℕ
write b pcm =
    let frames = length pcm / b.frame_bytes in
    let over = frames - b.high_frames in
    if frames == 0
    then (b, 0)
    else if ltb b.high_frames frames
    then (
      put (add_discarded b over)
          (take (b.high_frames * b.frame_bytes) (drop (over * b.frame_bytes) pcm)) b.high_frames,
      b.high_frames,
    )
    else (put b (take (frames * b.frame_bytes) pcm) frames, frames)

-- `clear(dst[:n])`
unfoldable pub clear_prefix : List ℕ → ℕ → List ℕ
clear_prefix dst n = copy_at dst 0 (replicate n 0)

-- The callback gets silence, and the frames that it wanted count as an underrun.
pub underrun : JitterBuffer → List ℕ → ℕ → JitterBuffer × List ℕ × ℕ
underrun b dst frames = (add_underrun b frames, clear_prefix dst (frames * b.frame_bytes), 0)

pub read_locked : JitterBuffer → List ℕ → ℕ → JitterBuffer × List ℕ × ℕ
read_locked b dst want =
    let least = min want b.used in
    let n = least - least % b.frame_bytes in
    if n == 0 then (b, dst, 0) else (
      record b { read = (b.read + n) % length b.buf; used = b.used - n },
      copy_out dst b.buf b.read n,
      n,
    )

-- `Read` from the point where the buffer is primed.
pub read_primed : JitterBuffer → List ℕ → ℕ → JitterBuffer × List ℕ × ℕ
unfolding queued_frames
read_primed b dst frames =
    let (b', dst', copied) = read_locked b dst (frames * b.frame_bytes) in
    if ltb (queued_frames b) frames
    then underrun (record b { primed = false }) dst frames
    else (store_queue_frames b', dst', copied / b.frame_bytes)

-- The frames that a call asks for and `dst` has room for.
pub wanted : JitterBuffer → List ℕ → ℤ → ℕ
wanted b dst frame_count = min (pos_part frame_count) (length dst / b.frame_bytes)

pub read : Bool → JitterBuffer → List ℕ → ℤ → JitterBuffer × List ℕ × ℕ
unfolding queued_frames
read locked b dst frame_count =
    let frames = wanted b dst frame_count in
    if leb_ℤ frame_count (pos 0) || length dst == 0
    then (b, dst, 0)
    else if frames == 0
    then (b, dst, 0)
    else if not locked
    then underrun b dst frames
    else if not b.primed && ltb (queued_frames b) b.target_frames
    then underrun b dst frames
    else read_primed (record b { primed = true }) dst frames
