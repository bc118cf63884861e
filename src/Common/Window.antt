-- ===== src/Common/Window.antt =====
-- The queue of bytes in a circular buffer, as it is written and read.
use Prim.Native.Nat.{ℕ, ◌+◌, ◌-◌, ◌%◌, ◌≤◌, ◌<◌}
use mathlib.Core.Path.{◌≡◌, ◌∙◌}
use mathlib.Core.List.{List, ◌++◌}
use native.Mathlib.Nat.{mod-lt}
use native.Mathlib.Omega.{arith}
use remoteau.Common.Lists.{
  length, get_or, take, drop, length-append, length-take, length-drop, get_or-take, get_or-drop,
  get_or-append, list_ext, keep_last, drop-append,
}
use remoteau.Common.Circular.{
  copy_in, copy_out, window, length-copy_in, length-window, wrap_cases, get_or-window,
  get_or-copy_in, length-copy_out, get_or-copy_out,
}

module _ (buf : List ℕ) (r used : ℕ) (hr : r < length buf) where
  -- Writing behind the queue appends to it.
  pub window-copy_in :
      (p : List ℕ)
      → used + length p ≤ length buf
      → window (copy_in buf ((r + used) % length buf) p) r (used + length p)
        ≡ window buf r used ++ p
  window-copy_in p room = list_ext _ _ 0 same_length same
    where
      w : ℕ
      w = (r + used) % length buf

      same_length :
          length (window (copy_in buf w p) r (used + length p)) ≡ length (window buf r used ++ p)
      same_length = ground (
        arith,
        length-copy_in buf w p,
        length-window (copy_in buf w p) r (used + length p),
        length-append (window buf r used) p,
        length-window buf r used,
      )

      same :
          (i : ℕ)
          → i < length (window (copy_in buf w p) r (used + length p))
          → get_or (window (copy_in buf w p) r (used + length p)) i 0
            ≡ get_or (window buf r used ++ p) i 0
      same i h = ground (
        arith,
        wrap_cases r used (length buf),
        length-copy_in buf w p,
        length-window (copy_in buf w p) r (used + length p),
        length-window buf r used,
        get_or-window (copy_in buf w p) r (used + length p) i,
        get_or-append (window buf r used) p i 0,
        get_or-window buf r used i,
        get_or-copy_in buf w p (r + i),
        get_or-copy_in buf w p (r + i - length buf),
      )

  -- Moving the read index on drops the oldest bytes.
  pub window-advance :
      (d : ℕ)
      → d ≤ used
      → used ≤ length buf
      → window buf ((r + d) % length buf) (used - d) ≡ drop d (window buf r used)
  window-advance d hd hu = list_ext _ _ 0 same_length same
    where
      r' : ℕ
      r' = (r + d) % length buf

      same_length : length (window buf r' (used - d)) ≡ length (drop d (window buf r used))
      same_length = ground (
        arith,
        wrap_cases r d (length buf),
        length-window buf r' (used - d),
        length-drop d (window buf r used),
        length-window buf r used,
      )

      same :
          (i : ℕ)
          → i < length (window buf r' (used - d))
          → get_or (window buf r' (used - d)) i 0 ≡ get_or (drop d (window buf r used)) i 0
      same i h = ground (
        arith,
        wrap_cases r d (length buf),
        length-window buf r' (used - d),
        get_or-window buf r' (used - d) i,
        get_or-drop d (window buf r used) i 0,
        get_or-window buf r used (d + i),
      )

  -- The two copies out deliver the oldest bytes, and leave what is behind them in `dst`.
  pub copy_out-window :
      (dst : List ℕ) (n : ℕ)
      → n ≤ length dst
      → n ≤ used
      → used ≤ length buf
      → copy_out dst buf r n ≡ take n (window buf r used) ++ drop n dst
  copy_out-window dst n hn hu hb = list_ext _ _ 0 same_length same
    where
      same_length :
          length (copy_out dst buf r n) ≡ length (take n (window buf r used) ++ drop n dst)
      same_length = ground (
        arith,
        length-copy_out dst buf r n,
        length-append (take n (window buf r used)) (drop n dst),
        length-take n (window buf r used),
        length-window buf r used,
        length-drop n dst,
      )

      same :
          (i : ℕ)
          → i < length (copy_out dst buf r n)
          → get_or (copy_out dst buf r n) i 0
            ≡ get_or (take n (window buf r used) ++ drop n dst) i 0
      same i h = ground (
        arith,
        length-copy_out dst buf r n,
        length-take n (window buf r used),
        length-window buf r used,
        get_or-copy_out dst buf r n i,
        get_or-append (take n (window buf r used)) (drop n dst) i 0,
        get_or-take n (window buf r used) i 0,
        get_or-window buf r used i,
        get_or-drop n dst (i - n) 0,
      )

-- Making room by dropping the oldest bytes, then appending: the newest bytes stay.
pub window-push :
    (buf : List ℕ) (r used : ℕ) (p : List ℕ)
    → r < length buf
    → used ≤ length buf
    → length p ≤ length buf
    → let over = used + length p - length buf in
      let r' = (r + over) % length buf in
      window (copy_in buf ((r' + (used - over)) % length buf) p) r' (used - over + length p)
      ≡ keep_last (length buf) (window buf r used ++ p)
window-push buf r used p hr hu hp =
    let over = used + length p - length buf in
    let r' = (r + over) % length buf in
    window-copy_in buf r' (used - over) (mod-lt (r + over) (omega arith)) p (omega arith)
    ∙ ground (
      arith,
      window-advance buf r used hr over,
      length-append (window buf r used) p,
      length-window buf r used,
      drop-append over (window buf r used) p,
    )
