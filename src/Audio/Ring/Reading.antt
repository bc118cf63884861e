-- ===== src/Audio/Ring/Reading.antt =====
-- engine/internal/audio/ring.go: what `readLocked` delivers and leaves.
use native.Mathlib.Nat.{mod-lt}
use remoteau.Common.{
  ℕ, ◌+◌, ◌-◌, ◌%◌, ◌≡◌, refl, sym, min, List, ◌++◌, length, take, drop, ◌==◌, arith, inl, inr,
  Bool-cases,
}
use remoteau.Common.Window.{window-advance, copy_out-window}
use remoteau.Common.Multiples.{sub-mod_zero, align-mod_zero}
use remoteau.Audio.Ring.{Ring, aligned_len, read_locked}
use remoteau.Audio.Ring.Inv.{IsValid}
use remoteau.Audio.Ring.Queue.{contents}

-- The whole quanta that a destination of `n` bytes gets.
abbrev pub readable : Ring → ℕ → ℕ
readable r n = min (n - n % r.quantum) r.used

-- Both sides of the minimum are whole, so rounding it down again changes nothing.
pub aligned-readable :
    (r : Ring) (n : ℕ) → IsValid r → aligned_len r (min (aligned_len r n) r.used) ≡ readable r n
unfolding aligned_len
aligned-readable r n v = ground (arith, align-mod_zero n r.quantum, v.used_whole)

readable-whole : (r : Ring) (n : ℕ) → IsValid r → readable r n % r.quantum ≡ 0
readable-whole r n v = ground (arith, align-mod_zero n r.quantum, v.used_whole)

pub record HasRead (r : Ring) (dst : List ℕ) (out : Ring × List ℕ × ℕ) : Type 0 where
  pub valid : IsValid out.0
  pub same_size : length out.0.buf ≡ length r.buf
  pub same_quantum : out.0.quantum ≡ r.quantum
  pub count : out.2 ≡ readable r (length dst)
  pub left : contents out.0 ≡ drop out.2 (contents r)
  pub delivered : out.1 ≡ take out.2 (contents r) ++ drop out.2 dst
  pub not_dropped : out.0.dropped ≡ r.dropped

-- `readLocked` hands over the oldest bytes, as many whole quanta as both sides have, and leaves the
-- rest of the queue and of `dst` as they were.
pub read_locked-HasRead : (r : Ring) (dst : List ℕ) → IsValid r → HasRead r dst (read_locked r dst)
unfolding read_locked
read_locked-HasRead r dst v =
    let n = readable r (length dst) in
    rw (aligned-readable r (length dst) v) (elim (Bool-cases (n == 0)) [
      | inl e ↦
          let none_read : n ≡ 0 = ground arith in
          rw e (record {
            valid = v;
            same_size = refl;
            same_quantum = refl;
            count = sym none_read;
            left = refl;
            delivered = refl;
            not_dropped = refl;
          })
      | inr e ↦ rw e (record {
        valid = record {
          quantum_pos = v.quantum_pos;
          size_whole = v.size_whole;
          used_whole =
              sub-mod_zero r.used n r.quantum v.used_whole (readable-whole r (length dst) v);
          read_in = mod-lt (r.read + n) {m = length r.buf} (omega arith);
          used_in = omega arith;
        };
        same_size = refl;
        same_quantum = refl;
        count = refl;
        left = window-advance r.buf r.read r.used v.read_in n (omega arith) v.used_in;
        delivered =
            copy_out-window r.buf r.read r.used v.read_in dst n (omega arith) (omega arith)
              v.used_in;
        not_dropped = refl;
      })
    ])
