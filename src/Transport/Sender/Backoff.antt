-- ===== src/Transport/Sender/Backoff.antt =====
-- engine/internal/transport/sender.go: how long `RunSender` waits before it connects again.
use remoteau.Common.{
  ℕ, zero, suc, ◌*◌, ◌^◌, ◌≤◌, ◌<◌, ◌≡◌, refl, sym, ap, ◌∙◌, true, false, List, [], ◌∷◌, All,
  length, get_or, min, arith, inl, inr, Bool-cases,
}
use native.Mathlib.Decide.{dec_lt}
use native.Mathlib.Nat.{mul_assoc, mul-le-mul_right}
use remoteau.Transport.Sender.{Options, Delays, Attempt, delays_of, is_healthy, retry, sleeps}

abbrev pub IsWithin : Delays → ℕ → Type 0
IsWithin d t = (d.min_delay ≤ t) × (t ≤ d.max_delay)

delays_of-ordered :
    (o : Options) → let d = delays_of o in (0 < d.min_delay) × (d.min_delay ≤ d.max_delay)
unfolding delays_of
delays_of-ordered o = ground arith

sleeps-IsWithin :
    (d : Delays) (backoff : ℕ) (tries : List Attempt)
    → d.min_delay ≤ d.max_delay
    → IsWithin d backoff
    → All (IsWithin d) (sleeps d backoff tries)
unfolding sleeps retry
sleeps-IsWithin d b [] o w = tt
sleeps-IsWithin d b (a ∷ tries) o (low, high) = elim (Bool-cases a.failed) [
  | inr fine ↦ rw fine (sleeps-IsWithin d b tries o (low, high))
  | inl failed ↦ elim (Bool-cases (is_healthy d a)) [
    | inl healthy ↦
        rw (failed, healthy)
          (
            (omega arith, o),
            sleeps-IsWithin d (min (d.min_delay * 2) d.max_delay) tries o
                (omega arith, omega arith),
          )
    | inr ill ↦
        rw (failed, ill)
          (
            (low, high),
            sleeps-IsWithin d (min (b * 2) d.max_delay) tries o (omega arith, omega arith),
          )
  ]
]

-- Attempts that all fail before they count as healthy.
abbrev pub AllFail : Delays → List Attempt → Type 0
AllFail d = All (λ a. (a.failed ≡ true) × (is_healthy d a ≡ false))

pow_pos : (k : ℕ) → 1 ≤ 2 ^ k
pow_pos zero = omega arith
pow_pos (suc k) = omega (arith, pow_pos k)

pow_suc : (k : ℕ) → 2 ^ suc k ≡ 2 * 2 ^ k
pow_suc k = omega arith

min_double : (b m p : ℕ) → 1 ≤ p → min (min (b * 2) m * p) m ≡ min (b * (2 * p)) m
min_double b m p h =
    let whole : b * 2 * p ≡ b * (2 * p) = mul_assoc b 2 p in
    elim (dec_lt (b * 2) m) [
      | yes small ↦ let e : min (b * 2) m ≡ b * 2 = omega arith in rw (e, whole) refl
      | no large ↦
          let e : min (b * 2) m ≡ m = omega arith in
          let reach : m ≤ m * p = grind arith in
          let beyond : m * p ≤ b * 2 * p = mul-le-mul_right p (omega arith) in
          rw e (omega (arith, whole, reach, beyond))
    ]

sleeps-doubles :
    (d : Delays) (backoff : ℕ) (tries : List Attempt) (k : ℕ)
    → AllFail d tries
    → backoff ≤ d.max_delay
    → k < length tries
    → get_or (sleeps d backoff tries) k 0 ≡ min (backoff * 2 ^ k) d.max_delay
unfolding sleeps retry
sleeps-doubles d b [] k f h lt = absurd (omega arith)
sleeps-doubles d b (a ∷ tries) zero ((failed, ill), f) h lt = rw (failed, ill) (omega arith)
sleeps-doubles d b (a ∷ tries) (suc k) ((failed, ill), f) h lt =
    rw (failed, ill)
      (sleeps-doubles d (min (b * 2) d.max_delay) tries k f (omega arith) (omega arith)
        ∙ min_double b d.max_delay (2 ^ k) (pow_pos k)
        ∙ ap (λ t. min (b * t) d.max_delay) (sym (pow_suc k)))

-- Every wait lies between the shortest and the longest delay of the options as they are filled in.
-- While attempts fail before they count as healthy, the k-th wait, from 0, is 2^k times the shortest
-- one, up to the longest.
pub sleeps_bounds :
    (o : Options) (tries : List Attempt)
    → let d = delays_of o in
      All (IsWithin d) (sleeps d d.min_delay tries)
      × ((k : ℕ)
          → AllFail d tries
          → k < length tries
          → get_or (sleeps d d.min_delay tries) k 0 ≡ min (d.min_delay * 2 ^ k) d.max_delay)
sleeps_bounds o tries =
    let d = delays_of o in
    let (_, ordered) = delays_of-ordered o in
    (
      sleeps-IsWithin d d.min_delay tries ordered (omega arith, ordered),
      λ k f h. sleeps-doubles d d.min_delay tries k f ordered h,
    )
