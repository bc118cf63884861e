-- ===== src/Engine/Media/Span.antt =====
-- engine/internal/engine/media.go: how far the held frames reach ahead of the next sequence number,
-- on the circle of uint32 numbers.
use native.Mathlib.Decide.{ℕ_discrete}
use remoteau.Common.{
  sym, true, false, ℕ, ◌+◌, ◌-◌, ◌%◌, ◌^◌, ◌≤◌, ◌<◌, ◌≡◌, ◌≢◌, refl, none, List, [], ◌∷◌, length,
  ◌==◌, max, arith,
}
use remoteau.Common.Assoc.{lookup, delete}
use remoteau.Engine.Media.{ahead}

-- `m.nextSeq++`
abbrev pub next_of : ℕ → ℕ
next_of next = (next + 1) % 2 ^ 32

ahead-next :
    (next k : ℕ) → next < 2 ^ 32 → k < 2 ^ 32 → k ≢ next → ahead (next_of next) k + 1 ≡ ahead next k
ahead-next next k hn hk ne = omega arith

module _ {ℓ} {A : Type ℓ} where
  abbrev pub KeysIn : List (ℕ × A) → Type 0
  KeysIn [] = Unit
  KeysIn ((k, v) ∷ m) = (k < 2 ^ 32) × KeysIn m

  -- The numbers from the next one to the last one that is held.
  unfoldable pub span : ℕ → List (ℕ × A) → ℕ
  span next [] = 0
  span next ((k, v) ∷ m) = max (ahead next k + 1) (span next m)

  pub delete-KeysIn : (k : ℕ) (m : List (ℕ × A)) → KeysIn m → KeysIn (delete k m)
  delete-KeysIn k [] h = tt
  delete-KeysIn k ((j, v) ∷ m) (hj, h) = ground (arith, delete-KeysIn k m h)

  pub span-pos : (next : ℕ) (m : List (ℕ × A)) → 0 < length m → 0 < span next m
  unfolding span
  span-pos next [] held = omega arith
  span-pos next ((k, v) ∷ m) held = omega arith

  pub span-le : (next : ℕ) (m : List (ℕ × A)) → span next m ≤ 2 ^ 32
  unfolding span
  span-le next [] = omega arith
  span-le next ((k, v) ∷ m) = omega (arith, span-le next m)

  -- Past a number that is not held, the span is one shorter.
  pub span-missing :
      (next : ℕ) (m : List (ℕ × A))
      → next < 2 ^ 32
      → KeysIn m
      → lookup next m ≡ none
      → span (next_of next) m ≡ span next m - 1
  unfolding span
  span-missing next [] hn hk h = refl
  span-missing next ((k, v) ∷ m) hn (hk, hm) h =
      let other : k ≢ next = λ e. ground arith in
      let rest : lookup next m ≡ none = ground arith in
      omega (arith, ahead-next next k hn hk other, span-missing next m hn hm rest)

  -- And past one that is held, once it has been taken out.
  pub span-held :
      (next : ℕ) (m : List (ℕ × A))
      → next < 2 ^ 32
      → KeysIn m
      → span (next_of next) (delete next m) ≡ span next m - 1
  unfolding span
  span-held next [] hn hk = refl
  span-held next ((k, v) ∷ m) hn (hk, hm) =
      let rest = span-held next m hn hm in
      elim (ℕ_discrete next k) [
        | yes e ↦
            let here : (next == k) ≡ true = ground arith in
            let zero_ahead : ahead next k ≡ 0 = rw (← e) (omega arith) in
            rw here (omega (arith, rest, zero_ahead))
        | no ne ↦
            let elsewhere : (next == k) ≡ false = ground arith in
            rw elsewhere (omega (arith, rest, ahead-next next k hn hk (λ e. ne (sym e))))
      ]
