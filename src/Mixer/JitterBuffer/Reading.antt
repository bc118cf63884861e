-- ===== src/Mixer/JitterBuffer/Reading.antt =====
-- engine/internal/mixer/jitterbuffer.go: when `Read` plays, what it plays, and what silence is.
use native.Mathlib.Nat.{mod-lt, div-mul-le_self}
use remoteau.Common.{
  ℕ, ◌+◌, ◌-◌, ◌*◌, ◌/◌, ◌%◌, ◌^◌, ◌≤◌, ◌≡◌, ◌≢◌, refl, ap, ◌∙◌, min, Bool, true, ◌&&◌, ◌||◌, List,
  ◌++◌, length, take, drop, replicate, leb, arith, copy_front, length-replicate,
}
use remoteau.Common.Int.{ℤ, pos_part}
use remoteau.Common.Multiples.{mul-mod_self, mul-div_self, sub-mod_zero, div-mul-cancel}
use remoteau.Common.Circular.{copy_out}
use remoteau.Common.Window.{window-advance, copy_out-window}
use remoteau.Mixer.JitterBuffer.{
  JitterBuffer, queued_frames, add_underrun, clear_prefix, underrun, read_locked, read_primed,
  wanted, store_queue_frames,
}
use remoteau.Mixer.JitterBuffer.Inv.{IsValid, contents}

-- Whether a read of `frames` frames can play: the buffer is primed, or the queue has reached the
-- target; and the queue holds as many frames.
abbrev pub can_play : JitterBuffer → ℕ → Bool
can_play b frames =
    (b.primed || leb b.target_frames (queued_frames b)) && leb frames (queued_frames b)

pub record Played (b : JitterBuffer) (dst : List ℕ) (frames : ℕ) (out : JitterBuffer × List ℕ × ℕ)
    : Type 0 where
  pub valid : IsValid out.0
  pub count : out.2 ≡ frames
  pub played :
      out.1 ≡ take (frames * b.frame_bytes) (contents b) ++ drop (frames * b.frame_bytes) dst
  pub left : contents out.0 ≡ drop (frames * b.frame_bytes) (contents b)
  pub now_primed : out.0.primed ≡ true
  pub counters :
      (out.0.underrun_frames ≡ b.underrun_frames) × (out.0.discarded_frames ≡ b.discarded_frames)

pub record Silent (b : JitterBuffer) (dst : List ℕ) (frames : ℕ) (out : JitterBuffer × List ℕ × ℕ)
    : Type 0 where
  pub valid : IsValid out.0
  pub count : out.2 ≡ 0
  pub played : out.1 ≡ replicate (frames * b.frame_bytes) 0 ++ drop (frames * b.frame_bytes) dst
  pub left : contents out.0 ≡ contents b
  pub counters :
      (out.0.underrun_frames ≡ (b.underrun_frames + frames) % 2 ^ 64)
      × (out.0.discarded_frames ≡ b.discarded_frames)

pub wanted-fits :
    (b : JitterBuffer) (dst : List ℕ) (n : ℤ) → wanted b dst n * b.frame_bytes ≤ length dst
unfolding wanted
wanted-fits b dst n =
    let le : min (pos_part n) (length dst / b.frame_bytes) ≤ length dst / b.frame_bytes =
      omega arith in
    grind (arith, le, div-mul-le_self (length dst) b.frame_bytes)

-- The state that a played read leaves.
abbrev after_read : JitterBuffer → ℕ → JitterBuffer
after_read b n = record b {
  read = (b.read + n) % length b.buf;
  used = b.used - n;
  queue_frames = (b.used - n) / b.frame_bytes;
}

read_locked-eq :
    (b : JitterBuffer) (dst : List ℕ) (n : ℕ)
    → n ≢ 0
    → n ≤ b.used
    → n % b.frame_bytes ≡ 0
    → read_locked b dst n ≡ (
      record b { read = (b.read + n) % length b.buf; used = b.used - n },
      copy_out dst b.buf b.read n,
      n,
    )
unfolding read_locked
read_locked-eq b dst n some enough whole =
    let least : min n b.used ≡ n = omega arith in
    let aligned : n - n % b.frame_bytes ≡ n = omega arith in rw (least, aligned) (ground arith)

read_primed-eq :
    (b : JitterBuffer) (dst : List ℕ) (frames : ℕ)
    → IsValid b
    → frames ≢ 0
    → frames ≤ queued_frames b
    → let n = frames * b.frame_bytes in
      read_primed b dst frames ≡ (after_read b n, copy_out dst b.buf b.read n, frames)
unfolding read_primed store_queue_frames queued_frames
read_primed-eq b dst frames v some enough =
    let n = frames * b.frame_bytes in
    let n_pos : n ≢ 0 = grind arith in
    let n_fits : n ≤ b.used = grind (arith, div-mul-cancel b.used b.frame_bytes v.used_whole) in
    let count : n / b.frame_bytes ≡ frames = mul-div_self frames b.frame_bytes v.frame_pos in
    ground (arith, read_locked-eq b dst n n_pos n_fits (mul-mod_self frames b.frame_bytes), count)

pub read_primed-Played :
    (b : JitterBuffer) (dst : List ℕ) (frames : ℕ)
    → IsValid b
    → b.primed ≡ true
    → frames * b.frame_bytes ≤ length dst
    → frames ≢ 0
    → frames ≤ queued_frames b
    → Played b dst frames (read_primed b dst frames)
read_primed-Played b dst frames v primed fits some enough =
    let n = frames * b.frame_bytes in
    let n_fits : n ≤ b.used =
      unfold queued_frames in (grind (arith, div-mul-cancel b.used b.frame_bytes v.used_whole)) in
    rw (read_primed-eq b dst frames v some enough) (record {
      valid = record {
        frame_pos = v.frame_pos;
        size_whole = v.size_whole;
        used_whole =
            sub-mod_zero b.used n b.frame_bytes v.used_whole (mul-mod_self frames b.frame_bytes);
        read_in = mod-lt (b.read + n) {m = length b.buf} (omega arith);
        used_in = omega arith;
        target_pos = v.target_pos;
        target_in = v.target_in;
        counted = v.counted;
        reported = refl;
      };
      count = refl;
      played = copy_out-window b.buf b.read b.used v.read_in dst n fits n_fits v.used_in;
      left = window-advance b.buf b.read b.used v.read_in n n_fits v.used_in;
      now_primed = primed;
      counters = (refl, refl);
    })

pub underrun-Silent :
    (b : JitterBuffer) (dst : List ℕ) (frames : ℕ)
    → IsValid b
    → frames * b.frame_bytes ≤ length dst
    → Silent b dst frames (underrun b dst frames)
unfolding underrun add_underrun clear_prefix
underrun-Silent b dst frames v fits =
    let n = frames * b.frame_bytes in
    let len : length (replicate n 0) ≡ n = length-replicate n 0 in
    record {
      valid = ground arith;
      count = refl;
      played =
          copy_front dst (replicate n 0) (rw len fits) ∙ ap (λ k. replicate n 0 ++ drop k dst) len;
      left = refl;
      counters = (refl, refl);
    }
