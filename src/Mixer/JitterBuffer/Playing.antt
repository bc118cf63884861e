-- ===== src/Mixer/JitterBuffer/Playing.antt =====
-- engine/internal/mixer/jitterbuffer.go: `Read` as a whole, on a free mutex and on a taken one.
use native.Mathlib.Nat.{div-le_self}
use native.Mathlib.Decide.{ℕ_discrete}
use remoteau.Common.{
  ℕ, ◌≤◌, ◌<◌, ◌≡◌, ◌≢◌, refl, Bool, true, false, not, ◌&&◌, ◌||◌, List, length, ltb, ◌==◌,
  if◌then◌else◌, arith, inl, inr, Bool-cases,
}
use remoteau.Common.Int.{ℤ, pos, negsuc, leb_ℤ}
use remoteau.Mixer.JitterBuffer.{JitterBuffer, queued_frames, underrun, read_primed, wanted, read}
use remoteau.Mixer.JitterBuffer.Inv.{IsValid}
use remoteau.Mixer.JitterBuffer.Reading.{
  can_play, Played, Silent, wanted-fits, read_primed-Played, underrun-Silent,
}

-- A call that wants frames passes the first two guards.
read_guards :
    (b : JitterBuffer) (dst : List ℕ) (n : ℤ)
    → wanted b dst n ≢ 0
    → (leb_ℤ n (pos 0) || length dst == 0) ≡ false
unfolding wanted
read_guards b dst (pos n) some = ground (arith, div-le_self (length dst) b.frame_bytes)
read_guards b dst (negsuc n) some = absurd (some (omega arith))

read-locked :
    (b : JitterBuffer) (dst : List ℕ) (n : ℤ)
    → wanted b dst n ≢ 0
    → read true b dst n ≡ (
        if not b.primed && ltb (queued_frames b) b.target_frames
        then underrun b dst (wanted b dst n)
        else read_primed (record b { primed = true }) dst (wanted b dst n))
unfolding read
read-locked b dst n some = ground (arith, read_guards b dst n some)

read-missed :
    (b : JitterBuffer) (dst : List ℕ) (n : ℤ)
    → wanted b dst n ≢ 0
    → read false b dst n ≡ underrun b dst (wanted b dst n)
unfolding read
read-missed b dst n some = ground (arith, read_guards b dst n some)

-- `Played` and `Silent` say nothing about the flag of the buffer before the call.
primed-IsValid : (b : JitterBuffer) (p : Bool) → IsValid b → IsValid (record b { primed = p })
primed-IsValid b p v = ground arith

Played-primed :
    (b : JitterBuffer) (p : Bool) (dst : List ℕ) (frames : ℕ) (out : JitterBuffer × List ℕ × ℕ)
    → Played (record b { primed = p }) dst frames out
    → Played b dst frames out
Played-primed b p dst frames out h = record {
  valid = h.valid;
  count = h.count;
  played = h.played;
  left = h.left;
  now_primed = h.now_primed;
  counters = h.counters;
}

Silent-primed :
    (b : JitterBuffer) (p : Bool) (dst : List ℕ) (frames : ℕ) (out : JitterBuffer × List ℕ × ℕ)
    → Silent (record b { primed = p }) dst frames out
    → Silent b dst frames out
Silent-primed b p dst frames out h = record {
  valid = h.valid;
  count = h.count;
  played = h.played;
  left = h.left;
  counters = h.counters;
}

read_primed-short :
    (b : JitterBuffer) (dst : List ℕ) (frames : ℕ)
    → queued_frames b < frames
    → read_primed b dst frames ≡ underrun (record b { primed = false }) dst frames
unfolding read_primed queued_frames
read_primed-short b dst frames short = ground arith

-- A read of frames on a free mutex plays them, oldest first, when the buffer can: it fills the front
-- of `dst`, leaves the rest of the queue, and touches no counter.
pub read-Played :
    (b : JitterBuffer) (dst : List ℕ) (frame_count : ℤ)
    → IsValid b
    → wanted b dst frame_count ≢ 0
    → can_play b (wanted b dst frame_count) ≡ true
    → Played b dst (wanted b dst frame_count) (read true b dst frame_count)
unfolding queued_frames
read-Played b dst n v some can =
    let frames = wanted b dst n in
    let b1 = record b { primed = true } in
    let ready : (not b.primed && ltb (queued_frames b) b.target_frames) ≡ false = ground arith in
    let enough : frames ≤ queued_frames b1 = ground arith in
    rw (read-locked b dst n some, ready)
      (Played-primed b true dst frames _ (
        read_primed-Played b1 dst frames (primed-IsValid b true v) refl (wanted-fits b dst n) some
          enough))

-- Any other read of frames, and each on a taken mutex, clears the front of `dst`, leaves the queue,
-- and counts the frames as an underrun.
pub read-Silent :
    (locked : Bool) (b : JitterBuffer) (dst : List ℕ) (frame_count : ℤ)
    → IsValid b
    → wanted b dst frame_count ≢ 0
    → (locked && can_play b (wanted b dst frame_count)) ≡ false
    → Silent b dst (wanted b dst frame_count) (read locked b dst frame_count)
unfolding queued_frames
read-Silent false b dst n v some cannot =
    rw (read-missed b dst n some) (underrun-Silent b dst (wanted b dst n) v (wanted-fits b dst n))
read-Silent true b dst n v some cannot =
    let frames = wanted b dst n in
    rw (read-locked b dst n some)
      (elim (Bool-cases (not b.primed && ltb (queued_frames b) b.target_frames)) [
        | inl low ↦ rw low (underrun-Silent b dst frames v (wanted-fits b dst n))
        | inr ready ↦
            let short : queued_frames b < frames = ground arith in
            rw (ready, read_primed-short (record b { primed = true }) dst frames short)
              (Silent-primed b false dst frames _ (
                underrun-Silent (record b { primed = false }) dst frames (primed-IsValid b false v)
                  (wanted-fits b dst n)))
      ])

both_true : (a b : Bool) → (a && b) ≡ true → (a ≡ true) × (b ≡ true)
both_true true b h = (refl, h)
both_true false b h = absurd (cc)

read-idle :
    (locked : Bool) (b : JitterBuffer) (dst : List ℕ) (n : ℤ)
    → wanted b dst n ≡ 0
    → read locked b dst n ≡ (b, dst, 0)
unfolding read
read-idle locked b dst n none_wanted =
    rw none_wanted (elim (Bool-cases (leb_ℤ n (pos 0) || length dst == 0)) [
      | inl stop ↦ rw stop refl
      | inr go ↦ rw go refl
    ])

-- Every read of a valid buffer leaves a valid one.
pub read-IsValid :
    (locked : Bool) (b : JitterBuffer) (dst : List ℕ) (frame_count : ℤ)
    → IsValid b
    → IsValid (read locked b dst frame_count).0
read-IsValid locked b dst n v = elim (ℕ_discrete (wanted b dst n) 0) [
  | yes none_wanted ↦ rw (read-idle locked b dst n none_wanted) v
  | no some_wanted ↦ elim (Bool-cases (locked && can_play b (wanted b dst n))) [
    | inl plays ↦
        let (free, can) = both_true locked (can_play b (wanted b dst n)) plays in
        rw free (read-Played b dst n v some_wanted can).valid
    | inr silent ↦ (read-Silent locked b dst n v some_wanted silent).valid
  ]
]
