-- ===== src/Audio/Ring/Queue.antt =====
-- engine/internal/audio/ring.go against a queue of bytes that keeps its newest `len(buf)`.
use native.Mathlib.Decide.{dec_lt, ℕ_discrete}
use remoteau.Common.{
  ℕ, ◌+◌, ◌-◌, ◌%◌, ◌≤◌, ◌<◌, ◌≡◌, refl, ap, ◌∙◌, sym, min, List, [], ◌++◌, length, take, drop,
  arith, length-take, length-drop, length-append, ◌≢◌, take_all, drop-append, keep_last,
  keep_last-long, append-nil,
}
use remoteau.Common.Circular.{window, length-copy_in, length-window}
use remoteau.Common.Window.{window-copy_in, window-advance}
use remoteau.Common.Multiples.{align-mod_zero}
use remoteau.Audio.Ring.{
  Ring, aligned_len, add_dropped, trim_to_size, make_room, store, write_aligned, write_locked,
}
use remoteau.Audio.Ring.Inv.{
  IsValid, make_room-full, make_room-free, make_room-Roomy, store-IsValid,
}

-- The bytes in the ring, oldest first.
abbrev pub contents : Ring → List ℕ
contents r = window r.buf r.read r.used

pub length-contents : (r : Ring) → IsValid r → length (contents r) ≡ r.used
length-contents r v = length-window r.buf r.read r.used (omega arith) (omega arith)

contents-make_room :
    (r : Ring) (n : ℕ)
    → IsValid r
    → n % r.quantum ≡ 0
    → n ≤ length r.buf
    → contents (make_room r n) ≡ drop (r.used + n - length r.buf) (contents r)
contents-make_room r n v whole fits = elim (dec_lt (length r.buf - r.used) n) [
  | yes full ↦
      let over = n - (length r.buf - r.used) in
      rw (make_room-full r n v whole fits full) (
        window-advance r.buf r.read r.used v.read_in over (omega arith) v.used_in
        ∙ ap (λ k. drop k (contents r)) (omega arith))
  | no free ↦
      rw (make_room-free r n (omega arith))
        (let e : r.used + n - length r.buf ≡ 0 = omega arith in rw e)
]

contents-store :
    (r : Ring) (p : List ℕ)
    → IsValid r
    → r.used + length p ≤ length r.buf
    → contents (store r p) ≡ contents r ++ p
unfolding store
contents-store r p v room = window-copy_in r.buf r.read r.used v.read_in p room

-- What a write of whole quanta leaves: the newest bytes of the queue with `p` behind it.
pub record Wrote (r : Ring) (p : List ℕ) (out : Ring × ℕ) : Type 0 where
  pub valid : IsValid out.0
  pub same_size : length out.0.buf ≡ length r.buf
  pub same_quantum : out.0.quantum ≡ r.quantum
  pub bytes : contents out.0 ≡ keep_last (length r.buf) (contents r ++ p)
  pub count : out.1 ≡ min (length p) (length r.buf)

-- The counter of dropped bytes is no part of the queue.
pub add_dropped-IsValid : (r : Ring) (k : ℕ) → IsValid r → IsValid (add_dropped r k)
unfolding add_dropped
add_dropped-IsValid r k v = ground arith

Wrote-add_dropped :
    (r : Ring) (k : ℕ) (p : List ℕ) (out : Ring × ℕ) → Wrote (add_dropped r k) p out → Wrote r p out
unfolding add_dropped
Wrote-add_dropped r k p out w = record {
  valid = w.valid;
  same_size = w.same_size;
  same_quantum = w.same_quantum;
  bytes = w.bytes;
  count = w.count;
}

-- `make_room` and `store` together, on a write that fits the storage.
store_in_room :
    (r : Ring) (p : List ℕ)
    → IsValid r
    → length p % r.quantum ≡ 0
    → length p ≤ length r.buf
    → let r' = store (make_room r (length p)) p in
      IsValid r'
      × (length r'.buf ≡ length r.buf)
      × (r'.quantum ≡ r.quantum)
      × (contents r' ≡ drop (r.used + length p - length r.buf) (contents r) ++ p)
store_in_room r p v whole fits =
    let made = make_room-Roomy r (length p) v whole fits in
    let r1 = make_room r (length p) in
    let whole1 : length p % r1.quantum ≡ 0 = rw made.same_quantum whole in
    let room1 : r1.used + length p ≤ length r1.buf = rw made.same_buf made.room in
    let stored = store-IsValid r1 p made.valid whole1 room1 in
    (
      stored,
      unfold store in (rw (length-copy_in r1.buf _ p) (ap length made.same_buf)),
      unfold store in made.same_quantum,
      rw (contents-store r1 p made.valid room1, contents-make_room r (length p) v whole fits),
    )

pub write_aligned-short :
    (r : Ring) (p : List ℕ)
    → length p ≤ length r.buf
    → write_aligned r p ≡ (store (make_room r (length p)) p, length p)
unfolding write_aligned trim_to_size
write_aligned-short r p short = ground arith

-- A write longer than the storage is the write of its newest bytes.
pub write_aligned-long :
    (r : Ring) (p : List ℕ)
    → length r.buf < length p
    → let drops = length p - length r.buf in
      write_aligned r p ≡ write_aligned (add_dropped r drops) (drop drops p)
unfolding write_aligned trim_to_size add_dropped
write_aligned-long r p long = ground (arith, length-drop (length p - length r.buf) p)

write_short-Wrote :
    (r : Ring) (p : List ℕ)
    → IsValid r
    → length p % r.quantum ≡ 0
    → length p ≤ length r.buf
    → Wrote r p (write_aligned r p)
write_short-Wrote r p v whole short =
    let (valid, size, quantum, bytes) = store_in_room r p v whole short in
    rw (write_aligned-short r p short) (record {
      valid = valid;
      same_size = size;
      same_quantum = quantum;
      bytes = ground (
        arith,
        bytes,
        length-contents r v,
        length-append (contents r) p,
        drop-append (r.used + length p - length r.buf) (contents r) p,
      );
      count = omega arith;
    })

-- A write of whole quanta keeps the newest bytes that the storage holds, whatever its length.
pub write_aligned-Wrote :
    (r : Ring) (p : List ℕ) → IsValid r → length p % r.quantum ≡ 0 → Wrote r p (write_aligned r p)
unfolding add_dropped
write_aligned-Wrote r p v whole = elim (dec_lt (length r.buf) (length p)) [
  | no short ↦ write_short-Wrote r p v whole (omega arith)
  | yes long ↦
      let drops = length p - length r.buf in
      let p1 = drop drops p in
      let len1 : length p1 ≡ length r.buf = omega (arith, length-drop drops p) in
      let v1 = add_dropped-IsValid r drops v in
      let w = write_short-Wrote (add_dropped r drops) p1 v1 (rw len1 v.size_whole) (omega arith) in
      let none_left : drop (length p1 - length r.buf) p1 ≡ p1 =
        (let e : length p1 - length r.buf ≡ 0 = omega arith in rw e) in
      rw (write_aligned-long r p long) (record {
        valid = w.valid;
        same_size = w.same_size;
        same_quantum = w.same_quantum;
        bytes =
            w.bytes
            ∙ keep_last-long (contents r) p1 (length r.buf) (omega arith)
            ∙ none_left
            ∙ sym (keep_last-long (contents r) p (length r.buf) (omega arith));
        count = omega (arith, w.count);
      })
]

aligned_take : (r : Ring) (n : ℕ) → min (aligned_len r n) n % r.quantum ≡ 0
unfolding aligned_len
aligned_take r n =
    let e : min (n - n % r.quantum) n ≡ n - n % r.quantum = omega arith in
    rw e (align-mod_zero n r.quantum)

-- The three ways through `writeLocked`.
pub write_locked-none :
    (r : Ring) (p : List ℕ)
    → aligned_len r (length p) ≡ 0
    → write_locked r p ≡ (add_dropped r (length p), 0)
unfolding write_locked
write_locked-none r p e = ground arith

pub write_locked-whole :
    (r : Ring) (p : List ℕ)
    → aligned_len r (length p) ≢ 0
    → aligned_len r (length p) ≡ length p
    → write_locked r p ≡ write_aligned r p
unfolding write_locked
write_locked-whole r p ne e = ground arith

pub write_locked-part :
    (r : Ring) (p : List ℕ)
    → aligned_len r (length p) ≢ 0
    → aligned_len r (length p) ≢ length p
    → let n = aligned_len r (length p) in
      write_locked r p ≡ write_aligned (add_dropped r (length p - n)) (take n p)
unfolding write_locked
write_locked-part r p ne ne' = ground arith

write_none-Wrote : (r : Ring) (k : ℕ) → IsValid r → Wrote r [] (add_dropped r k, 0)
unfolding add_dropped
write_none-Wrote r k v =
    let e : length (contents r) - length r.buf ≡ 0 = omega (arith, length-contents r v) in
    record {
      valid = add_dropped-IsValid r k v;
      same_size = refl;
      same_quantum = refl;
      bytes = rw (append-nil, e);
      count = omega arith;
    }

-- `writeLocked` keeps the newest bytes of the queue with the whole quanta of `p` behind it, and
-- returns how many bytes of `p` it kept.
pub write_locked-Wrote :
    (r : Ring) (p : List ℕ)
    → IsValid r
    → Wrote r (take (aligned_len r (length p)) p) (write_locked r p)
write_locked-Wrote r p v =
    let n = aligned_len r (length p) in
    let whole : length (take n p) % r.quantum ≡ 0 =
      rw (length-take n p) (aligned_take r (length p)) in
    elim (ℕ_discrete n 0) [
      | yes e ↦ rw (write_locked-none r p e, e) (write_none-Wrote r (length p) v)
      | no ne ↦ elim (ℕ_discrete n (length p)) [
        | yes e ↦
            rw (write_locked-whole r p ne e, take_all n p (omega arith))
              (write_aligned-Wrote r p v (rw (take_all n p (omega arith)) at whole))
        | no ne' ↦ rw (write_locked-part r p ne ne') (
            Wrote-add_dropped r (length p - n) (take n p) _ (
              write_aligned-Wrote (add_dropped r (length p - n)) (take n p)
                (add_dropped-IsValid r (length p - n) v) (unfold add_dropped in whole)))
      ]
    ]
