-- ===== src/Common/KeepLast.antt =====
-- The newest elements of a list, and repeated elements.
use remoteau.Common.{
  ℕ, zero, suc, ◌+◌, ◌-◌, ◌≤◌, ◌≡◌, refl, sym, ◌∙◌, ap, List, [], ◌∷◌, ◌++◌, length, drop,
  replicate, keep_last, length-append, length-drop, drop-append, arith,
}

module _ {ℓ} {A : Type ℓ} where
  drop_nothing : (m : ℕ) → drop m (let e : List A = [] in e) ≡ []
  drop_nothing zero = refl
  drop_nothing (suc m) = refl

  drop-drop : (m n : ℕ) (xs : List A) → drop m (drop n xs) ≡ drop (n + m) xs
  drop-drop m zero xs = let e : zero + m ≡ m = omega arith in rw e refl
  drop-drop m (suc n) [] = drop_nothing m ∙ sym (drop_nothing (suc n + m))
  drop-drop m (suc n) (x ∷ xs) =
      let e : suc n + m ≡ suc (n + m) = omega arith in rw e (drop-drop m n xs)

  -- What is dropped before more comes would be dropped after it.
  pub keep_last-append :
      (n : ℕ) (xs ys : List A) → keep_last n (keep_last n xs ++ ys) ≡ keep_last n (xs ++ ys)
  keep_last-append n xs ys =
      let k = length xs - n in
      let none_beyond : k - length xs ≡ 0 = omega arith in
      let front : drop k xs ++ ys ≡ drop k (xs ++ ys) =
        rw (drop-append k xs ys, none_beyond) refl in
      let left = length-drop k (xs ++ ys) in
      let both = length-append xs ys in
      let same : k + (length (drop k (xs ++ ys)) - n) ≡ length (xs ++ ys) - n =
        omega (arith, left, both) in
      rw front
        (drop-drop (length (drop k (xs ++ ys)) - n) k (xs ++ ys) ∙ ap (λ j. drop j (xs ++ ys)) same)

  pub keep_last-short : (n : ℕ) (xs : List A) → length xs ≤ n → keep_last n xs ≡ xs
  keep_last-short n xs h = let e : length xs - n ≡ 0 = omega arith in rw e refl

  pub replicate-add : (m n : ℕ) (a : A) → replicate m a ++ replicate n a ≡ replicate (m + n) a
  replicate-add zero n a = let e : zero + n ≡ n = omega arith in rw e refl
  replicate-add (suc m) n a =
      let e : suc m + n ≡ suc (m + n) = omega arith in rw e (ap (λ l. a ∷ l) (replicate-add m n a))
