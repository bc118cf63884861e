-- ===== src/Audio/Ring/Counter.antt =====
-- engine/internal/audio/ring.go: the counter of dropped bytes.
use native.Mathlib.Decide.{dec_lt, ℕ_discrete}
use remoteau.Common.{
  ℕ, ◌+◌, ◌-◌, ◌%◌, ◌^◌, ◌≤◌, ◌≡◌, List, length, take, drop, arith, length-take, length-drop,
}
use remoteau.Common.Multiples.{align-mod_zero}
use remoteau.Audio.Ring.{
  Ring, aligned_len, add_dropped, make_room, store, write_aligned, write_locked,
}
use remoteau.Audio.Ring.Inv.{IsValid, make_room-full, make_room-free}
use remoteau.Audio.Ring.Queue.{
  write_aligned-short, write_aligned-long, write_locked-none, write_locked-whole, write_locked-part,
  add_dropped-IsValid,
}

-- Of the bytes that came in, `n` more are either queued or counted, up to the wrap of a uint64.
abbrev pub Accounts : Ring → ℕ → Ring → Type 0
Accounts r n r' = (r'.dropped + r'.used) % 2 ^ 64 ≡ (r.dropped + r.used + n) % 2 ^ 64

store_in_room-Accounts :
    (r : Ring) (p : List ℕ)
    → IsValid r
    → length p % r.quantum ≡ 0
    → length p ≤ length r.buf
    → Accounts r (length p) (store (make_room r (length p)) p)
unfolding store
store_in_room-Accounts r p v whole fits = elim (dec_lt (length r.buf - r.used) (length p)) [
  | yes full ↦ rw (make_room-full r (length p) v whole fits full) (omega arith)
  | no free ↦ rw (make_room-free r (length p) (omega arith)) (omega arith)
]

write_aligned-Accounts :
    (r : Ring) (p : List ℕ)
    → IsValid r
    → length p % r.quantum ≡ 0
    → Accounts r (length p) (write_aligned r p).0
unfolding add_dropped
write_aligned-Accounts r p v whole = elim (dec_lt (length r.buf) (length p)) [
  | no short ↦
      rw (write_aligned-short r p (omega arith)) (store_in_room-Accounts r p v whole (omega arith))
  | yes long ↦
      let drops = length p - length r.buf in
      let p1 = drop drops p in
      let len1 : length p1 ≡ length r.buf = omega (arith, length-drop drops p) in
      let r1 = add_dropped r drops in
      let stored =
        store_in_room-Accounts r1 p1 (add_dropped-IsValid r drops v) (rw len1 v.size_whole)
          (omega arith) in
      rw (write_aligned-long r p long, write_aligned-short r1 p1 (omega arith))
        (omega (arith, stored))
]

-- `writeLocked` loses no byte silently: each byte of `p`, and each that it pushed out of the queue,
-- is queued or added to the counter of dropped bytes.
pub write_locked-Accounts :
    (r : Ring) (p : List ℕ) → IsValid r → Accounts r (length p) (write_locked r p).0
unfolding add_dropped
write_locked-Accounts r p v =
    let n = aligned_len r (length p) in
    let len : length (take n p) ≡ n = unfold aligned_len in (omega (arith, length-take n p)) in
    let whole : n % r.quantum ≡ 0 = unfold aligned_len in align-mod_zero (length p) r.quantum in
    let small : n ≤ length p = unfold aligned_len in (omega arith) in
    elim (ℕ_discrete n 0) [
      | yes e ↦ rw (write_locked-none r p e) (omega arith)
      | no ne ↦ elim (ℕ_discrete n (length p)) [
        | yes e ↦ rw (write_locked-whole r p ne e) (write_aligned-Accounts r p v (rw (← e) whole))
        | no ne' ↦
            let part =
              write_aligned-Accounts (add_dropped r (length p - n)) (take n p)
                (add_dropped-IsValid r (length p - n) v) (rw len whole) in
            rw (write_locked-part r p ne ne') (omega (arith, part))
      ]
    ]
