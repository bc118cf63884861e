-- ===== src/Common/Multiples.antt =====
-- Multiples of a frame or quantum size: what sums, differences and roundings down keep.
use Prim.Native.Nat.{ℕ, ◌+◌, ◌-◌, ◌*◌, ◌/◌, ◌%◌, ◌≤◌, ◌<◌}
use mathlib.Core.Path.{◌≡◌, ◌∙◌, ap}
use native.Mathlib.Nat.{
  add-mod, div-add-mod', mul-div_cancel, mul-mod_left, dvd-sub, dvd_iff_mod-eq-zero, mod-add-div',
  mul-sub,
}
use native.Mathlib.Omega.{arith}

pub div-mul-cancel : (x q : ℕ) → x % q ≡ 0 → x / q * q ≡ x
div-mul-cancel x q h = omega (arith, div-add-mod' x q)

pub mul-mod_self : (k q : ℕ) → k * q % q ≡ 0
mul-mod_self k q = mul-mod_left k q

pub add-mod_zero : (x y q : ℕ) → x % q ≡ 0 → y % q ≡ 0 → (x + y) % q ≡ 0
add-mod_zero x y q hx hy = grind (arith, add-mod x y q)

pub sub-mod_zero : (x y q : ℕ) → x % q ≡ 0 → y % q ≡ 0 → (x - y) % q ≡ 0
sub-mod_zero x y q hx hy =
    (dvd_iff_mod-eq-zero q).0
      (dvd-sub q ((dvd_iff_mod-eq-zero q).1 hx) ((dvd_iff_mod-eq-zero q).1 hy))

pub align-mod_zero : (x q : ℕ) → (x - x % q) % q ≡ 0
align-mod_zero x q = ap (λ t. t % q) (omega (arith, mod-add-div' x q)) ∙ mul-mod_self (x / q) q

pub mul-div_self : (k q : ℕ) → 0 < q → k * q / q ≡ k
mul-div_self k q h = mul-div_cancel k h

pub div-le_of_le : (x y q : ℕ) → x ≤ y → x / q ≤ y / q
div-le_of_le x y q h = grind (arith, div-add-mod' x q, div-add-mod' y q)

pub add_sub-mul : (a b c q : ℕ) → (a + b - c) * q ≡ a * q + b * q - c * q
add_sub-mul a b c q = omega (arith, mul-sub q (a + b) c)
