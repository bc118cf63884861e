-- ===== src/Mixer/JitterBuffer/Inv.antt =====
-- engine/internal/mixer/jitterbuffer.go: the representation invariant.
use remoteau.Common.{
  ℕ, ◌*◌, ◌/◌, ◌%◌, ◌^◌, ◌≤◌, ◌<◌, ◌≡◌, refl, false, List, length, ltb, if◌then◌else◌, Result, ok,
  err, arith, length-replicate, replicate, sym, reject_if, ◌>>◌, zero,
}
use native.Mathlib.Nat.{zero-mod, zero-div}
use remoteau.Common.Int.{ℤ, pos_part}
use remoteau.Common.Circular.{window, length-window}
use remoteau.Audio.Format.{Format, validate, bytes_per_frame, default_format}
use remoteau.Mixer.JitterBuffer.{
  JitterBuffer, Options, Error, new_jitter_buffer, millis_to_frames, frames_or, is_zero_format,
  as_error, target_above_high, fresh,
}

pub record IsValid (b : JitterBuffer) : Type 0 where
  pub frame_pos : 0 < b.frame_bytes
  pub size_whole : length b.buf ≡ b.high_frames * b.frame_bytes
  pub used_whole : b.used % b.frame_bytes ≡ 0
  pub read_in : b.read < length b.buf
  pub used_in : b.used ≤ length b.buf
  pub target_pos : 0 < b.target_frames
  pub target_in : b.target_frames ≤ b.high_frames
  pub counted : b.discarded_frames < 2 ^ 64
  pub reported : b.queue_frames ≡ b.used / b.frame_bytes

-- The PCM bytes in the buffer, oldest first.
abbrev pub contents : JitterBuffer → List ℕ
contents b = window b.buf b.read b.used

pub length-contents : (b : JitterBuffer) → IsValid b → length (contents b) ≡ b.used
length-contents b v = length-window b.buf b.read b.used (omega arith) (omega arith)

frames_or-pos : (n : ℤ) (rate millis : ℕ) → 0 < frames_or n rate millis
unfolding millis_to_frames
frames_or-pos n rate millis = ground arith

bytes_per_frame-pos : (f : Format) → as_error (validate f) ≡ ok tt → 0 < bytes_per_frame f
unfolding validate bytes_per_frame
bytes_per_frame-pos f h = ground arith

fresh-IsValid :
    (f : Format) (target high : ℕ)
    → 0 < bytes_per_frame f
    → 0 < target
    → target ≤ high
    → IsValid (fresh f target high)
unfolding fresh
fresh-IsValid f target high hf ht hh =
    let len : length (replicate (high * bytes_per_frame f) (zero)) ≡ high * bytes_per_frame f =
      length-replicate (high * bytes_per_frame f) zero in
    record {
      frame_pos = hf;
      size_whole = len;
      used_whole = zero-mod (bytes_per_frame f);
      read_in = rw len (grind arith);
      used_in = omega arith;
      target_pos = ht;
      target_in = hh;
      counted = omega arith;
      reported = sym (zero-div (bytes_per_frame f));
    }

-- What the checks of the constructor let through.
new_from :
    (m : Result Error (Unit {0})) (f : Format) (target high : ℕ) {b : JitterBuffer}
    → (m >> (reject_if (ltb high target) target_above_high >> ok (fresh f target high))) ≡ ok b
    → (m ≡ ok tt) × (target ≤ high) × (fresh f target high ≡ b)
new_from (err e) f target high h = cc
new_from (ok tt) f target high h = ground arith

-- The constructor's buffer is valid, empty and not primed.
pub new_jitter_buffer-IsValid :
    (opts : Options) {b : JitterBuffer}
    → new_jitter_buffer opts ≡ ok b
    → IsValid b × (b.used ≡ 0) × (b.primed ≡ false)
unfolding new_jitter_buffer fresh
new_jitter_buffer-IsValid opts {b} h =
    let format = if is_zero_format opts.format then default_format else opts.format in
    let target = frames_or opts.target_frames (pos_part format.rate) 60 in
    let high = frames_or opts.high_watermark_frames (pos_part format.rate) 80 in
    let (checked, below, same) = new_from (as_error (validate format)) format target high h in
    rw (← same) (
      fresh-IsValid format target high (bytes_per_frame-pos format checked)
          (frames_or-pos opts.target_frames (pos_part format.rate) 60) below,
      refl,
      refl,
    )
