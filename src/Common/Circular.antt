-- ===== src/Common/Circular.antt =====
-- The circular byte buffer that engine/internal/audio/ring.go and
-- engine/internal/mixer/jitterbuffer.go both write out: two copies round the end of the storage,
-- and the queue of bytes that it holds.
use Prim.Native.Nat.{ℕ, ◌+◌, ◌-◌, ◌%◌, ◌≤◌, ◌<◌, min}
use mathlib.Core.Path.{◌≡◌}
use mathlib.Core.Logic.{◌⊎◌, inl, inr}
use mathlib.Core.List.{List, ◌++◌}
use native.Mathlib.Nat.{mod-eq_of_lt, mod-eq-sub-mod}
use native.Mathlib.Decide.{dec_lt}
use native.Mathlib.Omega.{arith}
use remoteau.Common.Tests.{ltb, if◌then◌else◌}
use remoteau.Common.Lists.{
  length, get_or, take, drop, copy_at, slice, length-append, length-take, length-drop,
  length-copy_at, get_or-take, get_or-drop, get_or-append, get_or-copy_at,
}

-- `copied := copy(buf[write:], p); if copied < len(p) { copy(buf, p[copied:]) }`
unfoldable pub copy_in : List ℕ → ℕ → List ℕ → List ℕ
copy_in buf write p =
    let copied = min (length buf - write) (length p) in
    let once = copy_at buf write p in
    if ltb copied (length p) then copy_at once 0 (drop copied p) else once

-- `copied := copy(dst, buf[read:read+first]); if copied < n { copy(dst[copied:], buf[:n-copied]) }`
unfoldable pub copy_out : List ℕ → List ℕ → ℕ → ℕ → List ℕ
copy_out dst buf read n =
    let first = min n (length buf - read) in
    let copied = min (length dst) first in
    let once = copy_at dst 0 (slice read (read + first) buf) in
    if ltb copied n then copy_at once copied (take (n - copied) buf) else once

-- The `n` bytes from index `read` on, going round at the end of the storage.
abbrev pub window : List ℕ → ℕ → ℕ → List ℕ
window buf read n = take n (drop read buf ++ buf)

pub length-copy_in : (buf : List ℕ) (w : ℕ) (p : List ℕ) → length (copy_in buf w p) ≡ length buf
unfolding copy_in
length-copy_in buf w p =
    let copied = min (length buf - w) (length p) in
    ground (arith, length-copy_at buf w p, length-copy_at (copy_at buf w p) 0 (drop copied p))

pub length-window :
    (buf : List ℕ) (r n : ℕ) → r ≤ length buf → n ≤ length buf → length (window buf r n) ≡ n
length-window buf r n hr hn =
    ground
      (arith, length-take n (drop r buf ++ buf), length-append (drop r buf) buf, length-drop r buf)

-- The index that `(read + k) % len(buf)` is, for `k` within the storage.
pub wrap_cases :
    (r k cap : ℕ)
    → r < cap
    → k ≤ cap
    → ((r + k < cap) × ((r + k) % cap ≡ r + k)) ⊎ ((cap ≤ r + k) × ((r + k) % cap ≡ r + k - cap))
wrap_cases r k cap hr hk = elim (dec_lt (r + k) cap) [
  | yes p ↦ inl (p, mod-eq_of_lt p)
  | no p ↦ inr (
    omega arith,
    omega (
      arith,
      mod-eq-sub-mod {n = r + k} {m = cap} (omega arith),
      mod-eq_of_lt {n = r + k - cap} {m = cap} (omega arith),
    ),
  )
]

pub get_or-window :
    (buf : List ℕ) (r n i : ℕ)
    → r ≤ length buf
    → get_or (window buf r n) i 0 ≡ (
        if ltb i n
        then if ltb (r + i) (length buf)
          then get_or buf (r + i) 0
          else get_or buf (r + i - length buf) 0
        else 0)
get_or-window buf r n i hr = ground (
  arith,
  get_or-take n (drop r buf ++ buf) i 0,
  get_or-append (drop r buf) buf i 0,
  get_or-drop r buf i 0,
  length-drop r buf,
)

pub get_or-copy_in :
    (buf : List ℕ) (w : ℕ) (p : List ℕ) (i : ℕ)
    → w ≤ length buf
    → length p ≤ length buf
    → i < length buf
    → get_or (copy_in buf w p) i 0 ≡ (
        if ltb i (w + length p - length buf)
        then get_or p (i + (length buf - w)) 0
        else if ltb i w
        then get_or buf i 0
        else if ltb i (w + length p)
        then get_or p (i - w) 0
        else get_or buf i 0)
unfolding copy_in
get_or-copy_in buf w p i hw hp hi =
    let copied = min (length buf - w) (length p) in
    ground (
      arith,
      get_or-copy_at buf w p i 0,
      get_or-copy_at (copy_at buf w p) 0 (drop copied p) i 0,
      length-copy_at buf w p,
      length-drop copied p,
      get_or-drop copied p i 0,
    )

pub length-copy_out : (dst buf : List ℕ) (r n : ℕ) → length (copy_out dst buf r n) ≡ length dst
unfolding copy_out
length-copy_out dst buf r n =
    let first = min n (length buf - r) in
    let once = copy_at dst 0 (slice r (r + first) buf) in
    ground (
      arith,
      length-copy_at dst 0 (slice r (r + first) buf),
      length-copy_at once (min (length dst) first) (take (n - min (length dst) first) buf),
    )

pub get_or-copy_out :
    (dst buf : List ℕ) (r n i : ℕ)
    → r ≤ length buf
    → n ≤ length buf
    → n ≤ length dst
    → i < length dst
    → get_or (copy_out dst buf r n) i 0 ≡ (
        if ltb i n
        then if ltb (r + i) (length buf)
          then get_or buf (r + i) 0
          else get_or buf (r + i - length buf) 0
        else get_or dst i 0)
unfolding copy_out
get_or-copy_out dst buf r n i hr hn hd hi =
    let first = min n (length buf - r) in
    let part = slice r (r + first) buf in
    let once = copy_at dst 0 part in
    let rest = take (n - min (length dst) first) buf in
    ground (
      arith,
      length-copy_at dst 0 part,
      length-take (r + first - r) (drop r buf),
      length-drop r buf,
      length-take (n - min (length dst) first) buf,
      get_or-copy_at dst 0 part i 0,
      get_or-copy_at once (min (length dst) first) rest i 0,
      get_or-take (r + first - r) (drop r buf) i 0,
      get_or-drop r buf i 0,
      get_or-take (n - min (length dst) first) buf (i - min (length dst) first) 0,
    )
