-- ===== src/Audio/Ring.antt =====
-- engine/internal/audio/ring.go: the mutex-guarded PCM ring. A call is a function from the ring to
-- the ring; whether `TryLock` got the mutex is an argument. Slices are lists of bytes, `dropped` is
-- a uint64 counter.
pub mod Inv
pub mod Queue
pub mod Reading
pub mod Counter
pub mod Client
mod Tests
use remoteau.Common.{
  ℕ, ◌+◌, ◌-◌, ◌%◌, ◌^◌, min, Bool, List, length, take, drop, replicate, ltb, leb, ◌==◌,
  if◌then◌else◌,
}
use remoteau.Common.Int.{ℤ, pos, pos_part, leb_ℤ, ltb_ℤ}
use remoteau.Common.Circular.{copy_in, copy_out}

pub record Ring : Type 0 where
  pub buf : List ℕ
  pub quantum : ℕ
  pub read : ℕ
  pub used : ℕ
  pub dropped : ℕ

-- Past the first two lines both numbers are positive.
unfoldable pub new_ring : ℤ → ℤ → Ring
new_ring size_bytes quantum =
    let q = if leb_ℤ quantum (pos 0) then 1 else pos_part quantum in
    let size = if ltb_ℤ size_bytes (pos q) then q else pos_part size_bytes in
    let whole = size - size % q in
    let bytes = if whole == 0 then q else whole in
    record { buf = replicate bytes 0; quantum = q; read = 0; used = 0; dropped = 0 }

pub aligned_len : Ring → ℕ → ℕ
aligned_len r n = n - n % r.quantum

pub align_up : ℕ → ℕ → ℕ
align_up n quantum = if n % quantum == 0 then n else n + quantum - n % quantum

-- `r.dropped.Add(uint64(n))`
pub add_dropped : Ring → ℕ → Ring
add_dropped r n = record r { dropped = (r.dropped + n) % 2 ^ 64 }

-- Too long a write keeps its newest bytes.
pub trim_to_size : Ring → List ℕ → Ring × List ℕ
trim_to_size r p =
    let drops = length p - length r.buf in
    if ltb (length r.buf) (length p) then (add_dropped r drops, drop drops p) else (r, p)

-- The oldest bytes make room for `n` new ones.
pub make_room : Ring → ℕ → Ring
make_room r n =
    let space = length r.buf - r.used in
    let drops = min (align_up (n - space) r.quantum) r.used in
    if ltb space n
    then add_dropped (record r { read = (r.read + drops) % length r.buf; used = r.used - drops })
        drops
    else r

pub store : Ring → List ℕ → Ring
store r p = record r {
  buf = copy_in r.buf ((r.read + r.used) % length r.buf) p;
  used = r.used + length p;
}

-- The part of `writeLocked` after the length of `p` has been cut to whole quanta.
pub write_aligned : Ring → List ℕ → Ring × ℕ
write_aligned r p =
    let (r1, p1) = trim_to_size r p in (store (make_room r1 (length p1)) p1, length p1)

pub write_locked : Ring → List ℕ → Ring × ℕ
write_locked r p =
    let n = aligned_len r (length p) in
    if n == 0
    then (add_dropped r (length p), 0)
    else if n == length p
    then write_aligned r p
    else write_aligned (add_dropped r (length p - n)) (take n p)

-- The new `dst` stands beside the count that was read.
pub read_locked : Ring → List ℕ → Ring × List ℕ × ℕ
read_locked r dst =
    let n = aligned_len r (min (aligned_len r (length dst)) r.used) in
    if n == 0 then (r, dst, 0) else (
      record r { read = (r.read + n) % length r.buf; used = r.used - n },
      copy_out dst r.buf r.read n,
      n,
    )

-- The Boolean says whether `TryLock` got the mutex.
pub try_write : Bool → Ring → List ℕ → Ring × ℕ
try_write locked r p =
    if length p == 0
    then (r, 0)
    else if locked
    then write_locked r p
    else (add_dropped r (aligned_len r (length p)), 0)

pub read : Ring → List ℕ → Ring × List ℕ × ℕ
read r dst = if length dst == 0 then (r, dst, 0) else read_locked r dst

pub try_read : Bool → Ring → List ℕ → Ring × List ℕ × ℕ
try_read locked r dst =
    if length dst == 0 then (r, dst, 0) else if locked then read_locked r dst else (r, dst, 0)

abbrev pub available : Ring → ℕ
available r = r.used
