-- ===== src/Common/Assoc.antt =====
-- Maps with numbers for keys, as association lists.
use remoteau.Common.{
  ℕ, ◌+◌, ◌≤◌, ◌≡◌, refl, Option, none, some, List, [], ◌∷◌, length, ◌==◌, if◌then◌else◌, arith,
  inl, inr, Bool-cases,
}

module _ {ℓ} {A : Type ℓ} where
  abbrev pub lookup : ℕ → List (ℕ × A) → Option A
  lookup k [] = none
  lookup k ((j, v) ∷ m) = let rest = lookup k m in if k == j then some v else rest

  abbrev pub delete : ℕ → List (ℕ × A) → List (ℕ × A)
  delete k [] = []
  delete k ((j, v) ∷ m) = let rest = delete k m in if k == j then rest else (j, v) ∷ rest

  abbrev pub insert : ℕ → A → List (ℕ × A) → List (ℕ × A)
  insert k v m = (k, v) ∷ delete k m

  -- No key occurs twice.
  abbrev pub IsMap : List (ℕ × A) → Type ℓ
  IsMap [] = Unit
  IsMap ((k, v) ∷ m) = (lookup k m ≡ none) × IsMap m

  pub lookup-delete : (k : ℕ) (m : List (ℕ × A)) → lookup k (delete k m) ≡ none
  lookup-delete k [] = refl
  lookup-delete k ((j, v) ∷ m) = ground (arith, lookup-delete k m)

  pub lookup-delete-none :
      (j k : ℕ) (m : List (ℕ × A)) → lookup j m ≡ none → lookup j (delete k m) ≡ none
  lookup-delete-none j k [] h = refl
  lookup-delete-none j k ((i, v) ∷ m) h = ground (arith, lookup-delete-none j k m)

  pub delete-IsMap : (k : ℕ) (m : List (ℕ × A)) → IsMap m → IsMap (delete k m)
  delete-IsMap k [] h = tt
  delete-IsMap k ((j, v) ∷ m) (fresh, h) =
      ground (arith, lookup-delete-none j k m fresh, delete-IsMap k m h)

  pub insert-IsMap : (k : ℕ) (v : A) (m : List (ℕ × A)) → IsMap m → IsMap (insert k v m)
  insert-IsMap k v m h = (lookup-delete k m, delete-IsMap k m h)

  pub delete-absent : (k : ℕ) (m : List (ℕ × A)) → lookup k m ≡ none → delete k m ≡ m
  delete-absent k [] h = refl
  delete-absent k ((j, v) ∷ m) h = ground (arith, delete-absent k m)

  pub length-delete :
      (k : ℕ) (m : List (ℕ × A)) {v : A}
      → IsMap m
      → lookup k m ≡ some v
      → length (delete k m) + 1 ≡ length m
  length-delete k [] h e = cc
  length-delete k ((j, w) ∷ m) {v} (fresh, h) e = elim (Bool-cases (k == j)) [
    | inl same ↦
        let there : k ≡ j = ground arith in
        rw same (ground (arith, delete-absent k m (rw there fresh)))
    | inr other ↦
        let found : lookup k m ≡ some v = ground arith in
        let shorter = length-delete k m h found in rw other (omega (arith, shorter))
  ]

  pub length-delete_le : (k : ℕ) (m : List (ℕ × A)) → length (delete k m) ≤ length m
  length-delete_le k [] = omega arith
  length-delete_le k ((j, w) ∷ m) = ground (arith, length-delete_le k m)
