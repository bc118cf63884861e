-- ===== src/Audio/Ring/Client.antt =====
-- engine/internal/audio/ring.go as its callers see it: a bounded byte queue that drops its oldest
-- bytes.
use remoteau.Common.{
  ℕ, ◌-◌, ◌%◌, ◌≡◌, refl, min, Bool, true, false, List, [], ◌∷◌, ◌++◌, length, take, drop, ◌==◌,
  if◌then◌else◌, arith, keep_last, Bool-cases, inl, inr,
}
use remoteau.Audio.Ring.{
  Ring, aligned_len, add_dropped, write_locked, read_locked, try_write, read, try_read,
}
use remoteau.Audio.Ring.Inv.{IsValid}
use remoteau.Audio.Ring.Queue.{contents, length-contents, write_locked-Wrote, add_dropped-IsValid}
use remoteau.Audio.Ring.Reading.{read_locked-HasRead}

-- The Boolean of a `try` call says whether it finds the mutex free.
pub data Call : Type 0 where
  try_writes : Bool → List ℕ → Call
  reads : List ℕ → Call
  try_reads : Bool → List ℕ → Call

pub data Reply : Type 0 where
  wrote : ℕ → Reply
  filled : List ℕ → ℕ → Reply

unfoldable pub step : Ring → Call → Ring × Reply
step r (try_writes locked p) = let (r', n) = try_write locked r p in (r', wrote n)
step r (reads dst) = let (r', out, n) = read r dst in (r', filled out n)
step r (try_reads locked dst) = let (r', out, n) = try_read locked r dst in (r', filled out n)

unfoldable pub run : Ring → List Call → List Reply
run r [] = []
run r (c ∷ cs) = let (r', reply) = step r c in reply ∷ run r' cs

-- The specification: a list of bytes, oldest first, of which the newest `cap` are kept.
module _ (cap quantum : ℕ) where
  abbrev whole : ℕ → ℕ
  whole n = n - n % quantum

  pub push : List ℕ → List ℕ → List ℕ × ℕ
  push q p =
      let kept = take (whole (length p)) p in (keep_last cap (q ++ kept), min (length kept) cap)

  pub pull : List ℕ → List ℕ → List ℕ × List ℕ × ℕ
  pull q dst = let n = min (whole (length dst)) (length q) in (drop n q, take n q ++ drop n dst, n)

  pub queue_step : List ℕ → Call → List ℕ × Reply
  queue_step q (try_writes locked p) =
      let (q', n) = push q p in
      if length p == 0 then (q, wrote 0) else if locked then (q', wrote n) else (q, wrote 0)
  queue_step q (reads dst) =
      let (q', out, n) = pull q dst in
      if length dst == 0 then (q, filled dst 0) else (q', filled out n)
  queue_step q (try_reads locked dst) =
      let (q', out, n) = pull q dst in
      if length dst == 0
      then (q, filled dst 0)
      else if locked
      then (q', filled out n)
      else (q, filled dst 0)

  pub queue_run : List ℕ → List Call → List Reply
  queue_run q [] = []
  queue_run q (c ∷ cs) = let (q', reply) = queue_step q c in reply ∷ queue_run q' cs

-- The ring `out.0` is valid, as large as `r`, and holds what the queue `spec.0` is; the replies are
-- the same.
pub record Simulates (r : Ring) (out : Ring × Reply) (spec : List ℕ × Reply) : Type 0 where
  pub valid : IsValid out.0
  pub same_size : length out.0.buf ≡ length r.buf
  pub same_quantum : out.0.quantum ≡ r.quantum
  pub agrees : (contents out.0, out.1) ≡ spec

write_locked-push :
    (r : Ring) (p : List ℕ)
    → IsValid r
    → let (r', n) = write_locked r p in
      (contents r', n) ≡ push (length r.buf) r.quantum (contents r) p
unfolding push aligned_len
write_locked-push r p v = let w = write_locked-Wrote r p v in ground (arith, w.bytes, w.count)

read_locked-pull :
    (r : Ring) (dst : List ℕ)
    → IsValid r
    → let (r', out, n) = read_locked r dst in
      (contents r', out, n) ≡ pull (length r.buf) r.quantum (contents r) dst
unfolding pull
read_locked-pull r dst v =
    let h = read_locked-HasRead r dst v in
    ground (arith, h.left, h.delivered, h.count, length-contents r v)

-- A call that finds nothing to do, or the mutex taken.
idle-Simulates : (r : Ring) (reply : Reply) → IsValid r → Simulates r (r, reply) (contents r, reply)
idle-Simulates r reply v = record {
  valid = v;
  same_size = refl;
  same_quantum = refl;
  agrees = refl;
}

missed-Simulates :
    (r : Ring) (k : ℕ) → IsValid r → Simulates r (add_dropped r k, wrote 0) (contents r, wrote 0)
unfolding add_dropped
missed-Simulates r k v = record {
  valid = unfold add_dropped in (add_dropped-IsValid r k v);
  same_size = refl;
  same_quantum = refl;
  agrees = refl;
}

write-Simulates :
    (r : Ring) (p : List ℕ)
    → IsValid r
    → Simulates r
        ((write_locked r p).0, wrote (write_locked r p).1)
        (let (q, n) = push (length r.buf) r.quantum (contents r) p in (q, wrote n))
write-Simulates r p v =
    let w = write_locked-Wrote r p v in
    record {
      valid = w.valid;
      same_size = w.same_size;
      same_quantum = w.same_quantum;
      agrees = ground (arith, write_locked-push r p v);
    }

read-Simulates :
    (r : Ring) (dst : List ℕ)
    → IsValid r
    → Simulates r
        ((read_locked r dst).0, filled (read_locked r dst).1 (read_locked r dst).2)
        (let (q, out, n) = pull (length r.buf) r.quantum (contents r) dst in (q, filled out n))
read-Simulates r dst v =
    let h = read_locked-HasRead r dst v in
    record {
      valid = h.valid;
      same_size = h.same_size;
      same_quantum = h.same_quantum;
      agrees = ground (arith, read_locked-pull r dst v);
    }

-- Each call on a valid ring does what the bounded queue does.
pub step-Simulates :
    (r : Ring) (c : Call)
    → IsValid r
    → Simulates r (step r c) (queue_step (length r.buf) r.quantum (contents r) c)
unfolding step queue_step try_write read try_read
step-Simulates r (try_writes true p) v = elim (Bool-cases (length p == 0)) [
  | inl e ↦ rw e (idle-Simulates r (wrote 0) v)
  | inr e ↦ rw e (write-Simulates r p v)
]
step-Simulates r (try_writes false p) v = elim (Bool-cases (length p == 0)) [
  | inl e ↦ rw e (idle-Simulates r (wrote 0) v)
  | inr e ↦ rw e (missed-Simulates r (aligned_len r (length p)) v)
]
step-Simulates r (reads dst) v = elim (Bool-cases (length dst == 0)) [
  | inl e ↦ rw e (idle-Simulates r (filled dst 0) v)
  | inr e ↦ rw e (read-Simulates r dst v)
]
step-Simulates r (try_reads true dst) v = elim (Bool-cases (length dst == 0)) [
  | inl e ↦ rw e (idle-Simulates r (filled dst 0) v)
  | inr e ↦ rw e (read-Simulates r dst v)
]
step-Simulates r (try_reads false dst) v = elim (Bool-cases (length dst == 0)) [
  | inl e ↦ rw e (idle-Simulates r (filled dst 0) v)
  | inr e ↦ rw e (idle-Simulates r (filled dst 0) v)
]

-- No sequence of calls, on a free mutex or a taken one, tells a valid ring from the queue of its
-- contents that keeps the newest `len(buf)` bytes of whole-quantum writes.
pub run-queue_run :
    (r : Ring) (cs : List Call)
    → IsValid r
    → run r cs ≡ queue_run (length r.buf) r.quantum (contents r) cs
unfolding run queue_run
run-queue_run r [] v = refl
run-queue_run r (c ∷ cs) v =
    let s = step-Simulates r c v in
    rw (run-queue_run (step r c).0 cs s.valid, s.same_size, s.same_quantum, ← s.agrees)
