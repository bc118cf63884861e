-- ===== src/Mixer/JitterBuffer/Put.antt =====
-- engine/internal/mixer/jitterbuffer.go: what `Write` does with whole frames that fit the buffer.
use native.Mathlib.Decide.{dec_lt}
use native.Mathlib.Nat.{mod-lt, mod-eq_of_lt, zero-div, div-le_self}
use remoteau.Common.{
  ℕ, ◌+◌, ◌-◌, ◌*◌, ◌/◌, ◌%◌, ◌^◌, ◌≤◌, ◌<◌, ◌≡◌, ◌≢◌, refl, ◌∙◌, ◌||◌, List, ◌++◌, length, leb,
  arith, keep_last,
}
use remoteau.Common.Multiples.{
  div-mul-cancel, mul-mod_self, mul-div_self, add-mod_zero, sub-mod_zero, add_sub-mul,
}
use remoteau.Common.Circular.{copy_in, length-copy_in}
use remoteau.Common.Window.{window-push}
use remoteau.Mixer.JitterBuffer.{
  JitterBuffer, queued_frames, add_discarded, drop_oldest_locked, write_locked, store_queue_frames,
  prime, put,
}
use remoteau.Mixer.JitterBuffer.Inv.{IsValid, contents}

-- The state that `put` leaves, with the bytes that had to go first.
abbrev after_put : JitterBuffer → List ℕ → JitterBuffer
after_put b pcm =
    let over = b.used + length pcm - length b.buf in
    let read = (b.read + over) % length b.buf in
    let used = b.used - over + length pcm in
    record b {
      buf = copy_in b.buf ((read + (b.used - over)) % length b.buf) pcm;
      read = read;
      used = used;
      primed = b.primed || leb b.target_frames (used / b.frame_bytes);
      discarded_frames = (b.discarded_frames + over / b.frame_bytes) % 2 ^ 64;
      queue_frames = used / b.frame_bytes;
    }

-- Frames and bytes measure the same excess.
excess_bytes :
    (b : JitterBuffer) (frames : ℕ)
    → IsValid b
    → frames ≤ b.high_frames
    → let excess = queued_frames b + frames - b.high_frames in
      (excess * b.frame_bytes ≡ b.used + frames * b.frame_bytes - length b.buf)
      × (excess ≤ queued_frames b)
unfolding queued_frames
excess_bytes b frames v h = (
  omega (
    arith,
    add_sub-mul (b.used / b.frame_bytes) frames b.high_frames b.frame_bytes,
    div-mul-cancel b.used b.frame_bytes v.used_whole,
    v.size_whole,
  ),
  omega arith,
)

drop_oldest-eq :
    (b : JitterBuffer) (excess : ℕ)
    → 0 < excess
    → excess ≤ queued_frames b
    → drop_oldest_locked b excess ≡ record b {
      read = (b.read + excess * b.frame_bytes) % length b.buf;
      used = b.used - excess * b.frame_bytes;
      discarded_frames = (b.discarded_frames + excess) % 2 ^ 64;
    }
unfolding drop_oldest_locked queued_frames add_discarded
drop_oldest-eq b excess pos fits =
    let some_used : b.used ≢ 0 = λ e. omega (arith, div-le_self b.used b.frame_bytes) in
    ground arith

put-eq :
    (b : JitterBuffer) (pcm : List ℕ) (frames : ℕ)
    → IsValid b
    → frames ≤ b.high_frames
    → length pcm ≡ frames * b.frame_bytes
    → put b pcm frames ≡ after_put b pcm
unfolding put store_queue_frames prime write_locked queued_frames
put-eq b pcm frames v h len =
    let excess = queued_frames b + frames - b.high_frames in
    let over = b.used + length pcm - length b.buf in
    let (bytes, fits) = excess_bytes b frames v h in
    let over_eq : excess * b.frame_bytes ≡ over = omega (arith, bytes) in
    let over_frames : over / b.frame_bytes ≡ excess =
      rw (← over_eq) (mul-div_self excess b.frame_bytes v.frame_pos) in
    elim (dec_lt 0 excess) [
      | yes some_over ↦
          rw (over_frames) (ground (arith, drop_oldest-eq b excess some_over fits, over_eq))
      | no none_over ↦
          let no_excess : excess ≡ 0 = omega arith in
          let no_bytes : 0 * b.frame_bytes ≡ over = rw (← no_excess) over_eq in
          let no_over : over ≡ 0 = omega (arith, no_bytes) in
          rw (no_over, zero-div)
            (ground (arith, mod-eq_of_lt {n = b.read + 0} {m = length b.buf} (omega arith)))
    ]

-- What a write of whole frames leaves, of which the newest `high_frames` count.
pub record Wrote (b : JitterBuffer) (pcm : List ℕ) (frames : ℕ) (b' : JitterBuffer) : Type 0 where
  pub valid : IsValid b'
  pub same_size : (b'.high_frames ≡ b.high_frames) × (b'.frame_bytes ≡ b.frame_bytes)
  pub same_target : b'.target_frames ≡ b.target_frames
  pub bytes : contents b' ≡ keep_last (b.high_frames * b.frame_bytes) (contents b ++ pcm)
  pub now_primed : b'.primed ≡ (b.primed || leb b.target_frames (queued_frames b'))
  pub accounts :
      (b'.discarded_frames + queued_frames b') % 2 ^ 64
      ≡ (b.discarded_frames + queued_frames b + frames) % 2 ^ 64
  pub no_underrun : b'.underrun_frames ≡ b.underrun_frames

after_put-IsValid :
    (b : JitterBuffer) (pcm : List ℕ)
    → IsValid b
    → length pcm ≤ length b.buf
    → length pcm % b.frame_bytes ≡ 0
    → IsValid (after_put b pcm)
after_put-IsValid b pcm v fits whole =
    let over = b.used + length pcm - length b.buf in
    let read = (b.read + over) % length b.buf in
    let size = length-copy_in b.buf ((read + (b.used - over)) % length b.buf) pcm in
    let buf_whole : length b.buf % b.frame_bytes ≡ 0 =
      rw v.size_whole (mul-mod_self b.high_frames b.frame_bytes) in
    let sum_whole = add-mod_zero b.used (length pcm) b.frame_bytes v.used_whole whole in
    let over_whole =
      sub-mod_zero (b.used + length pcm) (length b.buf) b.frame_bytes sum_whole buf_whole in
    record {
      frame_pos = v.frame_pos;
      size_whole = size ∙ v.size_whole;
      used_whole =
          add-mod_zero (b.used - over) (length pcm) b.frame_bytes
            (sub-mod_zero b.used over b.frame_bytes v.used_whole over_whole) whole;
      read_in = rw size (mod-lt (b.read + over) {m = length b.buf} (omega arith));
      used_in = omega (arith, size);
      target_pos = v.target_pos;
      target_in = v.target_in;
      counted = mod-lt (b.discarded_frames + over / b.frame_bytes) (omega arith);
      reported = refl;
    }

-- Frames that come in are queued, or push out as many.
queued-after_put :
    (b : JitterBuffer) (pcm : List ℕ) (frames : ℕ)
    → IsValid b
    → frames ≤ b.high_frames
    → length pcm ≡ frames * b.frame_bytes
    → let over = b.used + length pcm - length b.buf in
      over / b.frame_bytes + (after_put b pcm).used / b.frame_bytes
      ≡ b.used / b.frame_bytes + frames
unfolding queued_frames
queued-after_put b pcm frames v h len =
    let fb = b.frame_bytes in
    let queued = b.used / fb in
    let excess = queued + frames - b.high_frames in
    let (bytes, fits) = excess_bytes b frames v h in
    let over_eq : b.used + length pcm - length b.buf ≡ excess * fb = omega (arith, bytes) in
    let room : length pcm ≤ length b.buf = rw (len, v.size_whole) (grind arith) in
    let used_eq : (after_put b pcm).used ≡ (queued + frames - excess) * fb = omega (
      arith,
      room,
      over_eq,
      div-mul-cancel b.used fb v.used_whole,
      add_sub-mul queued frames excess fb,
    ) in
    rw
      (
        used_eq,
        over_eq,
        mul-div_self excess fb v.frame_pos,
        mul-div_self (queued + frames - excess) fb v.frame_pos,
      )
      (omega arith)

pub put-Wrote :
    (b : JitterBuffer) (pcm : List ℕ) (frames : ℕ)
    → IsValid b
    → frames ≤ b.high_frames
    → length pcm ≡ frames * b.frame_bytes
    → Wrote b pcm frames (put b pcm frames)
unfolding queued_frames
put-Wrote b pcm frames v h len =
    let fits : length pcm ≤ length b.buf = rw (len, v.size_whole) (grind arith) in
    let whole : length pcm % b.frame_bytes ≡ 0 = rw len (mul-mod_self frames b.frame_bytes) in
    rw (put-eq b pcm frames v h len) (record {
      valid = after_put-IsValid b pcm v fits whole;
      same_size = (refl, refl);
      same_target = refl;
      bytes = rw (← v.size_whole) (window-push b.buf b.read b.used pcm v.read_in v.used_in fits);
      now_primed = refl;
      accounts = omega (arith, queued-after_put b pcm frames v h len);
      no_underrun = refl;
    })
