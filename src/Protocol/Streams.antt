-- ===== src/Protocol/Streams.antt =====
-- Byte streams and packets as lists: `io.ReadFull`, `bytes.Equal` and an index into a packet.
use remoteau.Common.{
  ℕ, zero, suc, ◌≡◌, refl, ap, arith, Bool, true, false, ◌&&◌, List, [], ◌∷◌, ◌++◌, length, get_or,
  ◌==◌,
}

-- `io.ReadFull`: the first `n` bytes and what follows them, if there are as many.
pub data Full : Type 0 where
  short : Full
  full : List ℕ → List ℕ → Full

abbrev cons_full : ℕ → Full → Full
cons_full x short = short
cons_full x (full xs r) = full (x ∷ xs) r

abbrev pub read_full : ℕ → List ℕ → Full
read_full zero r = full [] r
read_full (suc n) [] = short
read_full (suc n) (x ∷ r) = cons_full x (read_full n r)

abbrev pub bytes_equal : List ℕ → List ℕ → Bool
bytes_equal [] [] = true
bytes_equal (x ∷ xs) (y ∷ ys) = x == y && bytes_equal xs ys
bytes_equal _ _ = false

-- `b[i]`, behind a check of the length.
abbrev pub at : List ℕ → ℕ → ℕ
at b i = get_or b i 0

pub read_full-append : (xs rest : List ℕ) → read_full (length xs) (xs ++ rest) ≡ full xs rest
read_full-append [] rest = refl
read_full-append (x ∷ xs) rest = ap (cons_full x) (read_full-append xs rest)

pub bytes_equal_refl : (xs : List ℕ) → bytes_equal xs xs ≡ true
bytes_equal_refl [] = refl
bytes_equal_refl (x ∷ xs) = ground (arith, bytes_equal_refl xs)

pub bytes_equal_sym : (xs ys : List ℕ) → bytes_equal xs ys ≡ bytes_equal ys xs
bytes_equal_sym [] [] = refl
bytes_equal_sym [] (y ∷ ys) = refl
bytes_equal_sym (x ∷ xs) [] = refl
bytes_equal_sym (x ∷ xs) (y ∷ ys) = ground (arith, bytes_equal_sym xs ys)

pub bytes_equal_sound : (xs ys : List ℕ) → bytes_equal xs ys ≡ true → xs ≡ ys
bytes_equal_sound [] [] h = refl
bytes_equal_sound [] (y ∷ ys) h = absurd (cc)
bytes_equal_sound (x ∷ xs) [] h = absurd (cc)
bytes_equal_sound (x ∷ xs) (y ∷ ys) h = ground (arith, bytes_equal_sound xs ys)
