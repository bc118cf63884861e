-- ===== src/Mixer/JitterBuffer/Writing.antt =====
-- engine/internal/mixer/jitterbuffer.go: what `Write` keeps, drops and counts.
use native.Mathlib.Decide.{dec_lt, ℕ_discrete}
use native.Mathlib.Nat.{div-mul-le_self, mul-sub}
use remoteau.Common.{
  ℕ, ◌+◌, ◌-◌, ◌*◌, ◌/◌, ◌%◌, ◌^◌, ◌≤◌, ◌<◌, ◌≡◌, ◌≢◌, refl, sym, ◌∙◌, min, Bool, true, false, not, ◌&&◌, ◌||◌, ◌==◌, List, ◌++◌,
  length, take, drop, leb, arith, keep_last, keep_last-long, length-take, length-drop, drop-take,
  append-nil,
}
use remoteau.Mixer.JitterBuffer.{JitterBuffer, queued_frames, add_discarded, put, write}
use remoteau.Mixer.JitterBuffer.Inv.{IsValid, contents, length-contents}
use remoteau.Mixer.JitterBuffer.Put.{put-Wrote}

pub record Written (b : JitterBuffer) (pcm : List ℕ) (out : JitterBuffer × ℕ) : Type 0 where
  pub valid : IsValid out.0
  pub same_size : (out.0.high_frames ≡ b.high_frames) × (out.0.frame_bytes ≡ b.frame_bytes)
  pub same_target : out.0.target_frames ≡ b.target_frames
  pub count : out.1 ≡ min (length pcm / b.frame_bytes) b.high_frames
  pub bytes :
      contents out.0
      ≡ keep_last
          (b.high_frames * b.frame_bytes)
          (contents b ++ take (length pcm / b.frame_bytes * b.frame_bytes) pcm)
  pub now_primed :
      out.0.primed
      ≡ (b.primed
        || (not (length pcm / b.frame_bytes == 0) && leb b.target_frames (queued_frames out.0)))
  pub accounts :
      (out.0.discarded_frames + queued_frames out.0) % 2 ^ 64
      ≡ (b.discarded_frames + queued_frames b + length pcm / b.frame_bytes) % 2 ^ 64
  pub no_underrun : out.0.underrun_frames ≡ b.underrun_frames

primed-some :
    (frames : ℕ) (was reached : Bool)
    → frames ≢ 0
    → (was || reached) ≡ (was || (not (frames == 0) && reached))
primed-some frames was reached ne =
    let some_frames : (frames == 0) ≡ false = ground (arith, ne) in rw some_frames refl

primed-none :
    (frames : ℕ) (was reached : Bool) → frames ≡ 0 → was ≡ (was || (not (frames == 0) && reached))
primed-none frames true reached e = refl
primed-none frames false reached e = rw e refl

write-none :
    (b : JitterBuffer) (pcm : List ℕ) → length pcm / b.frame_bytes ≡ 0 → write b pcm ≡ (b, 0)
unfolding write
write-none b pcm e = ground arith

write-fits :
    (b : JitterBuffer) (pcm : List ℕ)
    → let frames = length pcm / b.frame_bytes in
      frames ≢ 0
      → frames ≤ b.high_frames
      → write b pcm ≡ (put b (take (frames * b.frame_bytes) pcm) frames, frames)
unfolding write
write-fits b pcm ne fits = ground arith

-- The part of a long write that is kept: its newest whole frames.
abbrev newest : JitterBuffer → List ℕ → List ℕ
newest b pcm =
    take (b.high_frames * b.frame_bytes)
      (drop ((length pcm / b.frame_bytes - b.high_frames) * b.frame_bytes) pcm)

write-long :
    (b : JitterBuffer) (pcm : List ℕ)
    → let frames = length pcm / b.frame_bytes in
      b.high_frames < frames
      → write b pcm ≡ (
        put (add_discarded b (frames - b.high_frames)) (newest b pcm) b.high_frames,
        b.high_frames,
      )
unfolding write
write-long b pcm long = ground arith

write_fits-Written :
    (b : JitterBuffer) (pcm : List ℕ)
    → IsValid b
    → length pcm / b.frame_bytes ≢ 0
    → length pcm / b.frame_bytes ≤ b.high_frames
    → Written b pcm (write b pcm)
write_fits-Written b pcm v ne fits =
    let frames = length pcm / b.frame_bytes in
    let len : length (take (frames * b.frame_bytes) pcm) ≡ frames * b.frame_bytes = omega (
      arith,
      length-take (frames * b.frame_bytes) pcm,
      div-mul-le_self (length pcm) b.frame_bytes,
    ) in
    let w = put-Wrote b (take (frames * b.frame_bytes) pcm) frames v fits len in
    rw (write-fits b pcm ne fits) (record {
      valid = w.valid;
      same_size = w.same_size;
      same_target = w.same_target;
      count = omega arith;
      bytes = w.bytes;
      now_primed = w.now_primed ∙ primed-some frames b.primed _ ne;
      accounts = w.accounts;
      no_underrun = w.no_underrun;
    })

write_long-Written :
    (b : JitterBuffer) (pcm : List ℕ)
    → IsValid b
    → b.high_frames < length pcm / b.frame_bytes
    → Written b pcm (write b pcm)
unfolding add_discarded queued_frames
write_long-Written b pcm v long =
    let fb = b.frame_bytes in
    let high = b.high_frames in
    let frames = length pcm / fb in
    let over = frames - high in
    let b1 = add_discarded b over in
    let v1 : IsValid b1 = ground arith in
    let high_le : high * fb ≤ frames * fb = grind arith in
    let split : over * fb + high * fb ≡ frames * fb =
      omega (arith, mul-sub fb frames high, high_le) in
    let len : length (newest b pcm) ≡ high * fb = omega (
      arith,
      length-take (high * fb) (drop (over * fb) pcm),
      length-drop (over * fb) pcm,
      div-mul-le_self (length pcm) fb,
    ) in
    let len' : length (take (frames * fb) pcm) ≡ frames * fb =
      omega (arith, length-take (frames * fb) pcm, div-mul-le_self (length pcm) fb) in
    let same : drop (length (newest b pcm) - high * fb) (newest b pcm)
        ≡ drop (length (take (frames * fb) pcm) - high * fb) (take (frames * fb) pcm) =
      (let zero_left : length (newest b pcm) - high * fb ≡ 0 = omega arith in
        let skipped : length (take (frames * fb) pcm) - high * fb ≡ over * fb = omega arith in
        rw (zero_left, skipped, ← split, drop-take (over * fb) (high * fb) pcm)) in
    let w = put-Wrote b1 (newest b pcm) high v1 (omega arith) len in
    rw (write-long b pcm long) (record {
      valid = w.valid;
      same_size = w.same_size;
      same_target = w.same_target;
      count = omega arith;
      bytes =
          w.bytes
          ∙ keep_last-long (contents b) (newest b pcm) (high * fb) (omega arith)
          ∙ same
          ∙ sym (keep_last-long (contents b) (take (frames * fb) pcm) (high * fb) (omega arith));
      now_primed = w.now_primed ∙ primed-some frames b.primed _ (λ e. omega arith);
      accounts = omega (arith, w.accounts);
      no_underrun = w.no_underrun;
    })

pub write-Written : (b : JitterBuffer) (pcm : List ℕ) → IsValid b → Written b pcm (write b pcm)
write-Written b pcm v =
    let fb = b.frame_bytes in
    let frames = length pcm / fb in
    elim (ℕ_discrete frames 0) [
      | yes e ↦ rw (write-none b pcm e) (record {
        valid = v;
        same_size = (refl, refl);
        same_target = refl;
        count = omega arith;
        bytes =
            let room : length (contents b) - b.high_frames * fb ≡ 0 =
              omega (arith, length-contents b v, v.size_whole) in
            let nothing : length pcm / fb * fb ≡ 0 = rw e (omega arith) in
            rw (nothing, append-nil, room);
        now_primed = primed-none frames b.primed _ e;
        accounts = omega arith;
        no_underrun = refl;
      })
      | no ne ↦ elim (dec_lt b.high_frames frames) [
        | no fits ↦ write_fits-Written b pcm v ne (omega arith)
        | yes long ↦ write_long-Written b pcm v long
      ]
    ]
