-- ===== src/Audio/Ring/Inv.antt =====
-- engine/internal/audio/ring.go: the representation invariant.
use remoteau.Common.{
  ℕ, zero, ◌==◌, if◌then◌else◌, ◌+◌, ◌-◌, ◌%◌, ◌^◌, ◌≤◌, ◌<◌, ◌≡◌, refl, min, List, length, drop,
  arith, length-drop, length-replicate,
}
use native.Mathlib.Decide.{dec_lt}
use native.Mathlib.Nat.{mod_self, zero-mod, mod-lt}
use remoteau.Common.Int.{ℤ, pos, pos_part, leb_ℤ, ltb_ℤ}
use remoteau.Common.Circular.{length-copy_in}
use remoteau.Common.Multiples.{add-mod_zero, sub-mod_zero, align-mod_zero}
use remoteau.Audio.Ring.{Ring, new_ring, align_up, add_dropped, trim_to_size, make_room, store}

pub record IsValid (r : Ring) : Type 0 where
  pub quantum_pos : 0 < r.quantum
  pub size_whole : length r.buf % r.quantum ≡ 0
  pub used_whole : r.used % r.quantum ≡ 0
  pub read_in : r.read < length r.buf
  pub used_in : r.used ≤ length r.buf

-- A new ring is valid and empty, whatever the two arguments are.
pub new_ring-IsValid :
    (size quantum : ℤ) → IsValid (new_ring size quantum) × ((new_ring size quantum).used ≡ 0)
unfolding new_ring
new_ring-IsValid size quantum =
    let q = if leb_ℤ quantum (pos 0) then 1 else pos_part quantum in
    let n = if ltb_ℤ size (pos q) then q else pos_part size in
    let bytes = if n - n % q == 0 then q else n - n % q in
    ground (arith, length-replicate bytes (zero), align-mod_zero n q, mod_self q, zero-mod q)

align_up-whole : (n q : ℕ) → n % q ≡ 0 → align_up n q ≡ n
unfolding align_up
align_up-whole n q h = ground arith

-- What `make_room` leaves: a valid ring over the same storage, with space for `n` bytes.
pub record Roomy (r r' : Ring) (n : ℕ) : Type 0 where
  pub valid : IsValid r'
  pub same_buf : r'.buf ≡ r.buf
  pub same_quantum : r'.quantum ≡ r.quantum
  pub room : r'.used + n ≤ length r.buf
  pub used_left : r'.used ≡ r.used - (r.used + n - length r.buf)

-- What `make_room` drops is exactly the excess: every length is a multiple of the quantum.
room_drops :
    (r : Ring) (n : ℕ)
    → IsValid r
    → n % r.quantum ≡ 0
    → n ≤ length r.buf
    → let over = n - (length r.buf - r.used) in
      (min (align_up over r.quantum) r.used ≡ over) × (over % r.quantum ≡ 0)
room_drops r n v whole fits =
    let space = length r.buf - r.used in
    let space_whole = sub-mod_zero (length r.buf) r.used r.quantum v.size_whole v.used_whole in
    let over_whole = sub-mod_zero n space r.quantum whole space_whole in
    (rw (align_up-whole (n - space) r.quantum over_whole) (omega arith), over_whole)

pub make_room-full :
    (r : Ring) (n : ℕ)
    → IsValid r
    → n % r.quantum ≡ 0
    → n ≤ length r.buf
    → length r.buf - r.used < n
    → let over = n - (length r.buf - r.used) in
      make_room r n ≡ record r {
        read = (r.read + over) % length r.buf;
        used = r.used - over;
        dropped = (r.dropped + over) % 2 ^ 64;
      }
unfolding make_room add_dropped
make_room-full r n v whole fits full = ground (arith, room_drops r n v whole fits)

pub make_room-free : (r : Ring) (n : ℕ) → n ≤ length r.buf - r.used → make_room r n ≡ r
unfolding make_room
make_room-free r n free = ground arith

pub make_room-Roomy :
    (r : Ring) (n : ℕ)
    → IsValid r
    → n % r.quantum ≡ 0
    → n ≤ length r.buf
    → Roomy r (make_room r n) n
make_room-Roomy r n v whole fits = elim (dec_lt (length r.buf - r.used) n) [
  | yes full ↦
      let over = n - (length r.buf - r.used) in
      rw (make_room-full r n v whole fits full) (record {
        valid = record {
          quantum_pos = v.quantum_pos;
          size_whole = v.size_whole;
          used_whole =
              sub-mod_zero r.used over r.quantum v.used_whole (room_drops r n v whole fits).1;
          read_in = mod-lt (r.read + over) {m = length r.buf} (omega arith);
          used_in = omega arith;
        };
        same_buf = refl;
        same_quantum = refl;
        room = omega arith;
        used_left = omega arith;
      })
  | no free ↦ rw (make_room-free r n (omega arith)) (record {
    valid = v;
    same_buf = refl;
    same_quantum = refl;
    room = omega arith;
    used_left = omega arith;
  })
]

pub store-IsValid :
    (r : Ring) (p : List ℕ)
    → IsValid r
    → length p % r.quantum ≡ 0
    → r.used + length p ≤ length r.buf
    → IsValid (store r p)
unfolding store
store-IsValid r p v whole room = ground (
  arith,
  length-copy_in r.buf ((r.read + r.used) % length r.buf) p,
  add-mod_zero r.used (length p) r.quantum v.used_whole whole,
)

-- The bytes that `trim_to_size` keeps, and what it leaves of the ring.
pub trim_to_size_lem :
    (r : Ring) (p : List ℕ)
    → IsValid r
    → length p % r.quantum ≡ 0
    → let (r1, p1) = trim_to_size r p in
      IsValid r1
      × (p1 ≡ drop (length p - length r.buf) p)
      × (r1 ≡ record r { dropped = r1.dropped })
      × (length p1 ≤ length r.buf)
      × (length p1 % r.quantum ≡ 0)
unfolding trim_to_size add_dropped
trim_to_size_lem r p v whole =
    let drops = length p - length r.buf in
    ground (
      arith,
      length-drop drops p,
      sub-mod_zero (length p) drops r.quantum whole
          (sub-mod_zero (length p) (length r.buf) r.quantum whole v.size_whole),
    )
