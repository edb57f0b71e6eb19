-- ===== src/Prelude/Halves.antt =====
-- Even and odd numbers by halves, and powers of two.
use Prim.Native.Nat.{ℕ, zero, suc, ◌+◌, ◌*◌, ◌/◌, ◌%◌, ◌^◌, ◌<◌}
use mathlib.Core.Path.{◌≡◌, sym, ap, ◌∙◌}
use mathlib.Core.Logic.{◌≢◌}
use native.Mathlib.Omega.{arith}
use native.Mathlib.Nat.{
  pow-suc, div-div-eq-div-mul, mod-eq-sub-mul-div, mul-div-mul_left, div-add-mod,
}

pub pow_double : (d : ℕ) → 2 ^ suc d ≡ 2 * 2 ^ d
pow_double d = omega (arith, pow-suc 2 d)

pub pow_pos : (d : ℕ) → 0 < 2 ^ d
pow_pos zero = omega arith
pow_pos (suc d) = omega (arith, pow_double d, pow_pos d)

pub half-lt-pow : (d n : ℕ) → n < 2 ^ suc d → n / 2 < 2 ^ d
half-lt-pow d n h = omega (arith, pow_double d)

-- `n >> 1 >> r` is `n >> (r + 1)`.
pub half-div_pow : (n r : ℕ) → n / 2 / 2 ^ r ≡ n / 2 ^ suc r
half-div_pow n r = div-div-eq-div-mul n 2 (2 ^ r) ∙ ap (λ (m : ℕ). n / m) (sym (pow_double r))

pub double-mod : (a b : ℕ) → 0 < b → (2 * a) % (2 * b) ≡ 2 * (a % b)
double-mod a b h = omega (
  arith,
  mod-eq-sub-mul-div (2 * a) (2 * b),
  mod-eq-sub-mul-div a b,
  ap (λ (q : ℕ). 2 * b * q) (mul-div-mul_left {m = 2} a b (omega arith)),
)

-- `2 ^ (r + 1)` divides an even number exactly if `2 ^ r` divides its half, and no odd one.
pub even_multiple : (a r : ℕ) → (2 * a) % 2 ^ suc r ≡ 2 * (a % 2 ^ r)
even_multiple a r = ap (λ (m : ℕ). (2 * a) % m) (pow_double r) ∙ double-mod a (2 ^ r) (pow_pos r)

pub odd_multiple : (a r : ℕ) → (2 * a + 1) % 2 ^ suc r ≢ 0
odd_multiple a r h = omega (
  arith,
  div-add-mod (2 * a + 1) (2 ^ suc r),
  ap (λ (m : ℕ). m * ((2 * a + 1) / 2 ^ suc r)) (pow_double r),
)

pub half_pow : (d : ℕ) → 2 ^ suc d / 2 ≡ 2 ^ d
half_pow d = omega (arith, pow_double d)

pub pow_cut : (d a b : ℕ) → d ≡ a + b → 2 ^ d ≡ 2 ^ a * 2 ^ b
pow_cut d zero b e = let k : d ≡ b = omega arith in rw k (omega arith)
pow_cut zero (suc a) b e = absurd (omega arith)
pow_cut (suc d) (suc a) b e =
    omega
      (arith, pow_double d, pow_cut d a b (omega arith), ap (λ (p : ℕ). p * 2 ^ b) (pow_double a))
