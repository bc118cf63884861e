-- ===== src/Common/Lists.antt =====
-- Byte slices and other sequences as lists with native indices, and Go's `copy`.
use Prim.Native.Nat.{ℕ, zero, suc, ◌+◌, ◌-◌, ◌≤◌, ◌<◌, min}
use mathlib.Core.Path.{◌≡◌, refl, ap, ap₂}
use mathlib.Core.List.{List, [], ◌∷◌, ◌++◌}
use native.Mathlib.Omega.{arith}
use remoteau.Common.Tests.{ltb, if◌then◌else◌}

module _ {ℓ} {A : Type ℓ} where
  abbrev pub length : List A → ℕ
  length [] = 0
  length (_ ∷ xs) = suc (length xs)

  abbrev pub get_or : List A → ℕ → A → A
  get_or [] _ d = d
  get_or (x ∷ _) zero _ = x
  get_or (_ ∷ xs) (suc i) d = get_or xs i d

  abbrev pub take : ℕ → List A → List A
  take zero _ = []
  take (suc n) [] = []
  take (suc n) (x ∷ xs) = x ∷ take n xs

  abbrev pub drop : ℕ → List A → List A
  drop zero xs = xs
  drop (suc n) [] = []
  drop (suc n) (_ ∷ xs) = drop n xs

  abbrev pub replicate : ℕ → A → List A
  replicate zero _ = []
  replicate (suc n) a = a ∷ replicate n a

  abbrev pub All {κ} : (A → Type κ) → List A → Type κ
  All P [] = Unit {κ}
  All P (x ∷ xs) = P x × All P xs

  -- `copy(dst, src)`: as many elements as both slices have.
  abbrev pub copy : List A → List A → List A
  copy [] _ = []
  copy (d ∷ ds) [] = d ∷ ds
  copy (_ ∷ ds) (x ∷ xs) = x ∷ copy ds xs

  -- `copy(dst[i:], src)`, seen in the whole of `dst`.
  abbrev pub copy_at : List A → ℕ → List A → List A
  copy_at dst zero src = copy dst src
  copy_at [] (suc i) _ = []
  copy_at (d ∷ ds) (suc i) src = d ∷ copy_at ds i src

  -- `xs[lo:hi]`
  abbrev pub slice : ℕ → ℕ → List A → List A
  slice lo hi xs = take (hi - lo) (drop lo xs)

module _ {ℓ} {A : Type ℓ} where
  pub length-append : (xs ys : List A) → length (xs ++ ys) ≡ length xs + length ys
  length-append [] ys = omega arith
  length-append (_ ∷ xs) ys = omega (arith, length-append xs ys)

  pub length-take : (n : ℕ) (xs : List A) → length (take n xs) ≡ min n (length xs)
  length-take zero xs = omega arith
  length-take (suc n) [] = omega arith
  length-take (suc n) (_ ∷ xs) = omega (arith, length-take n xs)

  pub length-drop : (n : ℕ) (xs : List A) → length (drop n xs) ≡ length xs - n
  length-drop zero xs = omega arith
  length-drop (suc n) [] = omega arith
  length-drop (suc n) (_ ∷ xs) = omega (arith, length-drop n xs)

  pub length-replicate : (n : ℕ) (a : A) → length (replicate n a) ≡ n
  length-replicate zero a = refl
  length-replicate (suc n) a = ap suc (length-replicate n a)

  length-copy : (dst src : List A) → length (copy dst src) ≡ length dst
  length-copy [] src = refl
  length-copy (d ∷ ds) [] = refl
  length-copy (d ∷ ds) (x ∷ xs) = ap suc (length-copy ds xs)

  pub length-copy_at :
      (dst : List A) (i : ℕ) (src : List A) → length (copy_at dst i src) ≡ length dst
  length-copy_at dst zero src = length-copy dst src
  length-copy_at [] (suc i) src = refl
  length-copy_at (d ∷ ds) (suc i) src = ap suc (length-copy_at ds i src)

module _ {A : Type 0} where
  pub get_or-take :
      (n : ℕ) (xs : List A) (i : ℕ) (d : A)
      → get_or (take n xs) i d ≡ (if ltb i n then get_or xs i d else d)
  get_or-take zero xs i d = ground arith
  get_or-take (suc n) [] i d = ground arith
  get_or-take (suc n) (x ∷ xs) zero d = ground arith
  get_or-take (suc n) (x ∷ xs) (suc i) d = ground (arith, get_or-take n xs i d)

  pub get_or-drop :
      (n : ℕ) (xs : List A) (i : ℕ) (d : A) → get_or (drop n xs) i d ≡ get_or xs (n + i) d
  get_or-drop zero xs i d = ap (λ k. get_or xs k d) (omega arith)
  get_or-drop (suc n) [] i d = refl
  get_or-drop (suc n) (x ∷ xs) i d = ground (arith, get_or-drop n xs i d)

  pub get_or-append :
      (xs ys : List A) (i : ℕ) (d : A)
      → get_or (xs ++ ys) i d
        ≡ (if ltb i (length xs) then get_or xs i d else get_or ys (i - length xs) d)
  get_or-append [] ys i d = ground arith
  get_or-append (x ∷ xs) ys zero d = ground arith
  get_or-append (x ∷ xs) ys (suc i) d = ground (arith, get_or-append xs ys i d)

  get_or-copy :
      (dst src : List A) (i : ℕ) (d : A)
      → get_or (copy dst src) i d
        ≡ (if ltb i (min (length src) (length dst)) then get_or src i d else get_or dst i d)
  get_or-copy [] src i d = ground arith
  get_or-copy (y ∷ ds) [] i d = ground arith
  get_or-copy (y ∷ ds) (x ∷ xs) zero d = ground arith
  get_or-copy (y ∷ ds) (x ∷ xs) (suc i) d = ground (arith, get_or-copy ds xs i d)

  pub get_or-copy_at :
      (dst : List A) (n : ℕ) (src : List A) (i : ℕ) (d : A)
      → get_or (copy_at dst n src) i d ≡ (
          if ltb i n
          then get_or dst i d
          else if ltb i (min (n + length src) (length dst))
          then get_or src (i - n) d
          else get_or dst i d)
  get_or-copy_at dst zero src i d = ground (arith, get_or-copy dst src i d)
  get_or-copy_at [] (suc n) src i d = ground arith
  get_or-copy_at (y ∷ ds) (suc n) src zero d = ground arith
  get_or-copy_at (y ∷ ds) (suc n) src (suc i) d = ground (arith, get_or-copy_at ds n src i d)

  -- Lists of one length with the same elements are equal.
  pub list_ext :
      (xs ys : List A) (d : A)
      → length xs ≡ length ys
      → ((i : ℕ) → i < length xs → get_or xs i d ≡ get_or ys i d)
      → xs ≡ ys
  list_ext [] [] d e h = refl
  list_ext [] (y ∷ ys) d e h = absurd (omega arith)
  list_ext (x ∷ xs) [] d e h = absurd (omega arith)
  list_ext (x ∷ xs) (y ∷ ys) d e h =
      ap₂ ◌∷◌ (h 0 (omega arith)) (list_ext xs ys d (omega arith) (λ i p. h (suc i) (omega arith)))

module _ {ℓ} {A : Type ℓ} where
  pub drop_all : (n : ℕ) (xs : List A) → length xs ≤ n → drop n xs ≡ []
  drop_all zero [] h = refl
  drop_all zero (x ∷ xs) h = absurd (omega arith)
  drop_all (suc n) [] h = refl
  drop_all (suc n) (x ∷ xs) h = drop_all n xs (omega arith)

  pub drop-append :
      (n : ℕ) (xs ys : List A) → drop n (xs ++ ys) ≡ drop n xs ++ drop (n - length xs) ys
  drop-append zero [] ys = refl
  drop-append (suc n) [] ys = let e : suc n - 0 ≡ suc n = omega arith in rw e
  drop-append zero (x ∷ xs) ys = let e : 0 - length (x ∷ xs) ≡ 0 = omega arith in rw e
  drop-append (suc n) (x ∷ xs) ys =
      let e : suc n - suc (length xs) ≡ n - length xs = omega arith in rw e (drop-append n xs ys)

  pub take_all : (n : ℕ) (xs : List A) → length xs ≤ n → take n xs ≡ xs
  take_all zero [] h = refl
  take_all zero (x ∷ xs) h = absurd (omega arith)
  take_all (suc n) [] h = refl
  take_all (suc n) (x ∷ xs) h = ap (◌∷◌ x) (take_all n xs (omega arith))

  take-nil : (n : ℕ) → take n (let e : List A = [] in e) ≡ []
  take-nil zero = refl
  take-nil (suc n) = refl

  -- The newest `cap` elements of a queue.
  abbrev pub keep_last : ℕ → List A → List A
  keep_last cap xs = drop (length xs - cap) xs

  -- A list of `cap` elements or more behind a queue pushes the whole queue out.
  pub keep_last-long :
      (xs p : List A) (cap : ℕ) → cap ≤ length p → keep_last cap (xs ++ p) ≡ drop (length p - cap) p
  keep_last-long xs p cap long =
      let e : length xs + length p - cap - length xs ≡ length p - cap = omega arith in
      ground (
        arith,
        e,
        length-append xs p,
        drop-append (length xs + length p - cap) xs p,
        drop_all (length xs + length p - cap) xs,
      )

  pub drop-take : (d n : ℕ) (xs : List A) → drop d (take (d + n) xs) ≡ take n (drop d xs)
  drop-take zero n xs = let e : 0 + n ≡ n = omega arith in rw e
  drop-take (suc d) n [] = let e : suc d + n ≡ suc (d + n) = omega arith in rw (e, take-nil)
  drop-take (suc d) n (x ∷ xs) =
      let e : suc d + n ≡ suc (d + n) = omega arith in rw e (drop-take d n xs)

  -- `copy(dst, src)` with room enough replaces the front.
  pub copy_front :
      (dst src : List A) → length src ≤ length dst → copy dst src ≡ src ++ drop (length src) dst
  copy_front [] [] h = refl
  copy_front [] (x ∷ xs) h = absurd (omega arith)
  copy_front (d ∷ ds) [] h = refl
  copy_front (d ∷ ds) (x ∷ xs) h = ap (◌∷◌ x) (copy_front ds xs (omega arith))

  pub take_front : (n : ℕ) (xs ys : List A) → length xs ≡ n → take n (xs ++ ys) ≡ xs
  take_front zero [] ys h = refl
  take_front zero (x ∷ xs) ys h = absurd (omega arith)
  take_front (suc n) [] ys h = absurd (omega arith)
  take_front (suc n) (x ∷ xs) ys h = ap (◌∷◌ x) (take_front n xs ys (omega arith))

  pub drop_front : (n : ℕ) (xs ys : List A) → length xs ≡ n → drop n (xs ++ ys) ≡ ys
  drop_front zero [] ys h = refl
  drop_front zero (x ∷ xs) ys h = absurd (omega arith)
  drop_front (suc n) [] ys h = absurd (omega arith)
  drop_front (suc n) (x ∷ xs) ys h = drop_front n xs ys (omega arith)

  pub take-append-drop : (n : ℕ) (xs : List A) → take n xs ++ drop n xs ≡ xs
  take-append-drop zero xs = refl
  take-append-drop (suc n) [] = refl
  take-append-drop (suc n) (x ∷ xs) = ap (◌∷◌ x) (take-append-drop n xs)
