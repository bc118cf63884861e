-- ===== src/Transport/Silence.antt =====
-- engine/internal/transport/receiver.go: `writeSilence`, which fills a gap in a stream. Its stream
-- is the jitter buffer that `Stream.Write` writes to.
use native.Mathlib.Decide.{ℕ_discrete}
use remoteau.Common.{
  false, ℕ, zero, suc, ◌+◌, ◌-◌, ◌*◌, ◌/◌, ◌%◌, ◌^◌, ◌≤◌, ◌<◌, ◌≡◌, refl, sym, ◌∙◌, ap, min, max,
  ◌++◌, length, take, replicate, keep_last, length-replicate, take_all, append-nil, append_assoc,
  ◌==◌, if◌then◌else◌, arith,
}
use remoteau.Common.Multiples.{mul-div_self}
use remoteau.Common.KeepLast.{keep_last-append, keep_last-short, replicate-add}
use remoteau.Mixer.JitterBuffer.{JitterBuffer, write, queued_frames}
use remoteau.Mixer.JitterBuffer.Inv.{IsValid, contents, length-contents}
use remoteau.Mixer.JitterBuffer.Writing.{write-Written}

-- The loop, on as much fuel as there are frames: every round writes one at least.
unfoldable pub silence_loop : ℕ → JitterBuffer → ℕ → ℕ → ℕ → JitterBuffer
silence_loop zero b bytes_per_frame chunk frames = b
silence_loop (suc fuel) b bytes_per_frame chunk frames =
    let n = min frames chunk in
    let b' = (write b (replicate (n * bytes_per_frame) 0)).0 in
    let rest = silence_loop fuel b' bytes_per_frame chunk (frames - n) in
    if frames == 0 then b else rest

-- `MaxUDPAudioPayloadBytes` is 960.
unfoldable pub write_silence : JitterBuffer → ℕ → ℕ → JitterBuffer
write_silence b bytes_per_frame frames =
    let chunk = max 1 (960 / bytes_per_frame) in
    if frames == 0
    then b
    else if bytes_per_frame == 0
    then b
    else silence_loop frames b bytes_per_frame chunk frames

-- `frames` frames of silence went behind the queue, which keeps its newest frames; each of them, and
-- each that they pushed out, is queued or counted as discarded.
pub record Silenced (b : JitterBuffer) (frames : ℕ) (b' : JitterBuffer) : Type 0 where
  pub valid : IsValid b'
  pub same_size : (b'.high_frames ≡ b.high_frames) × (b'.frame_bytes ≡ b.frame_bytes)
  pub bytes :
      contents b'
      ≡ keep_last
          (b.high_frames * b.frame_bytes)
          (contents b ++ replicate (frames * b.frame_bytes) 0)
  pub accounts :
      (b'.discarded_frames + queued_frames b') % 2 ^ 64
      ≡ (b.discarded_frames + queued_frames b + frames) % 2 ^ 64

pub none-Silenced : (b : JitterBuffer) → IsValid b → Silenced b 0 b
none-Silenced b v = record {
  valid = v;
  same_size = (refl, refl);
  bytes =
      let nothing : 0 * b.frame_bytes ≡ 0 = omega arith in
      rw (nothing, append-nil)
        (sym (
          keep_last-short (b.high_frames * b.frame_bytes) (contents b)
            (omega (arith, length-contents b v, v.used_in, v.size_whole))));
  accounts = omega arith;
}

-- One write of whole frames of silence.
write-Silenced :
    (b : JitterBuffer) (n : ℕ)
    → IsValid b
    → Silenced b n (write b (replicate (n * b.frame_bytes) 0)).0
write-Silenced b n v =
    let pcm = replicate (n * b.frame_bytes) zero in
    let w = write-Written b pcm v in
    let len = length-replicate (n * b.frame_bytes) zero in
    let frames : length pcm / b.frame_bytes ≡ n =
      ap (λ k. k / b.frame_bytes) len ∙ mul-div_self n b.frame_bytes v.frame_pos in
    let all : take (length pcm / b.frame_bytes * b.frame_bytes) pcm ≡ pcm =
      take_all _ pcm (rw frames (omega (arith, len))) in
    record {
      valid = w.valid;
      same_size = w.same_size;
      bytes = w.bytes ∙ ap (λ p. keep_last (b.high_frames * b.frame_bytes) (contents b ++ p)) all;
      accounts = omega (arith, w.accounts, frames);
    }

Silenced-then :
    (m n : ℕ) {b b1 b2 : JitterBuffer} → Silenced b m b1 → Silenced b1 n b2 → Silenced b (m + n) b2
Silenced-then m n {b} {b1} {b2} x y =
    let fb = b.frame_bytes in
    let cap = b.high_frames * fb in
    let zeros = λ (k : ℕ). replicate k zero in
    let (high, size) = x.same_size in
    let same_cap : b1.high_frames * b1.frame_bytes ≡ cap = rw (high, size) refl in
    let same_rest : n * b1.frame_bytes ≡ n * fb = rw size refl in
    let together : m * fb + n * fb ≡ (m + n) * fb = grind arith in
    record {
      valid = y.valid;
      same_size = (y.same_size.0 ∙ high, y.same_size.1 ∙ size);
      bytes =
          y.bytes
          ∙ ap (λ c. keep_last c (contents b1 ++ zeros (n * b1.frame_bytes))) same_cap
          ∙ ap (λ k. keep_last cap (contents b1 ++ zeros k)) same_rest
          ∙ ap (λ q. keep_last cap (q ++ zeros (n * fb))) x.bytes
          ∙ keep_last-append cap (contents b ++ zeros (m * fb)) (zeros (n * fb))
          ∙ ap (keep_last cap) (append_assoc (contents b) (zeros (m * fb)) (zeros (n * fb)))
          ∙ ap (λ q. keep_last cap (contents b ++ q)) (replicate-add (m * fb) (n * fb) zero)
          ∙ ap (λ k. keep_last cap (contents b ++ zeros k)) together;
      accounts = omega (arith, x.accounts, y.accounts);
    }

write-sized :
    (b : JitterBuffer) (size n : ℕ)
    → b.frame_bytes ≡ size
    → IsValid b
    → Silenced b n (write b (replicate (n * size) 0)).0
write-sized b size n e v = rw (← e) (write-Silenced b n v)

Silenced-all : {b b' : JitterBuffer} {m n : ℕ} → m ≡ n → Silenced b m b' → Silenced b n b'
Silenced-all e s = rw (← e) s

silence_loop-Silenced :
    (fuel : ℕ) (b : JitterBuffer) (size chunk frames : ℕ)
    → b.frame_bytes ≡ size
    → IsValid b
    → 0 < chunk
    → frames ≤ fuel
    → Silenced b frames (silence_loop fuel b size chunk frames)
unfolding silence_loop
silence_loop-Silenced zero b size chunk frames e v some enough =
    let none_left : 0 ≡ frames = omega arith in Silenced-all none_left (none-Silenced b v)
silence_loop-Silenced (suc fuel) b size chunk frames e v some enough = elim (ℕ_discrete frames 0) [
  | yes none_left ↦ rw none_left (none-Silenced b v)
  | no ne ↦
      let n = min frames chunk in
      let b1 = (write b (replicate (n * size) 0)).0 in
      let one = write-sized b size n e v in
      let go_on : (frames == 0) ≡ false = ground arith in
      let later =
        silence_loop-Silenced fuel b1 size chunk (frames - n) (one.same_size.1 ∙ e) one.valid some
          (omega arith) in
      let all : n + (frames - n) ≡ frames = omega arith in
      rw go_on (Silenced-all all (Silenced-then n (frames - n) one later))
]

-- Silence of any length, written in pieces of at most 960 bytes, leaves a valid buffer and what one
-- write of all of it would: the newest frames of the queue and the silence behind it. No frame of
-- silence is lost uncounted.
pub write_silence-Silenced :
    (b : JitterBuffer) (frames : ℕ)
    → IsValid b
    → Silenced b frames (write_silence b b.frame_bytes frames)
unfolding write_silence
write_silence-Silenced b frames v = elim (ℕ_discrete frames 0) [
  | yes e ↦ rw e (none-Silenced b v)
  | no ne ↦
      let go_on : (frames == 0) ≡ false = ground arith in
      let sized : (b.frame_bytes == 0) ≡ false = ground (arith, v.frame_pos) in
      rw (go_on, sized)
        (silence_loop-Silenced frames b b.frame_bytes (max 1 (960 / b.frame_bytes)) frames refl v
          (omega arith) (omega arith))
]
