-- ===== src/SecretField/Residues.antt =====
-- `add` and `negate` on Montgomery residues are the sum and the negation below the modulus.
use native.Mathlib.Nat.{mod-add-div, add-mul-mod_self_left, add-mod}
use rs_core.Prelude.{
  ℕ, ◌+◌, ◌-◌, ◌*◌, ◌/◌, ◌%◌, ◌^◌, ◌<◌, ◌≡◌, sym, ap, ap₂, ◌∙◌, ltb, not, arith, if◌then◌else◌,
}
use rs_core.Wire.{modulus}
use rs_core.SecretField.{Montgomery, add, negate}

pub mod-mul : (a b m : ℕ) → a % m * b % m ≡ a * b % m
mod-mul a b m =
    sym (add-mul-mod_self_left (a % m * b) m (a / m * b))
    ∙ ap (λ (n : ℕ). n % m) (distribute ∙ ap (λ (n : ℕ). n * b) (mod-add-div a m))
  where
    distribute : a % m * b + m * (a / m * b) ≡ (a % m + m * (a / m)) * b
    distribute = omega arith

add_mul : (x y r : ℕ) → (x + y) * r ≡ x * r + y * r
add_mul x y r = omega arith

wrapping_sum :
    (x y : ℕ)
    → x < modulus
    → y < modulus
    → (let sum = (x + y) % 2 ^ 256 in
        if not (ltb sum modulus) then (sum + 2 ^ 256 - modulus) % 2 ^ 256 else sum)
      ≡ (x + y) % modulus
wrapping_sum x y h k = ground arith

wrapping_negation :
    (x : ℕ)
    → x < modulus
    → (if ltb 0 x then ((2 ^ 256 - x) % 2 ^ 256 + modulus) % 2 ^ 256 else (2 ^ 256 - x) % 2 ^ 256)
      ≡ (modulus - x) % modulus
wrapping_negation x h = ground arith

mul_comm : (a b : ℕ) → a * b ≡ b * a
mul_comm a b = omega arith

pub mod-mul_both : (a b m : ℕ) → a % m * (b % m) % m ≡ a * b % m
mod-mul_both a b m =
    mod-mul a (b % m) m
    ∙ ap (λ (k : ℕ). k % m) (mul_comm a (b % m))
    ∙ mod-mul b a m
    ∙ ap (λ (k : ℕ). k % m) (mul_comm b a)

negated :
    (x y : ℕ) → x < modulus → y < modulus → (x + y) % modulus ≡ 0 → x ≡ (modulus - y) % modulus
negated x y h k e = omega arith

no_times : (r : ℕ) → 0 * r % modulus ≡ 0
no_times r = omega arith

pub retrieve-from_montgomery :
    {E : Type 0} (form : Montgomery E) (m : ℕ)
    → m < modulus
    → form.retrieve (form.from_montgomery m) ≡ m * form.radix_inverse % modulus
retrieve-from_montgomery form m h =
    form.retrieve_lem (form.from_montgomery m)
    ∙ ap (λ (n : ℕ). n * form.radix_inverse % modulus) (form.as_montgomery-from_montgomery m h)

module _ {E : Type 0} ⦃form : Montgomery E⦄ where
  pub retrieve-lt : (a : E) → form.retrieve a < modulus
  retrieve-lt a = omega (arith, form.retrieve_lem a)

  pub retrieve-add :
      (a b : E) → form.retrieve (add a b) ≡ (form.retrieve a + form.retrieve b) % modulus
  unfolding add
  retrieve-add a b =
      let x : ℕ = form.as_montgomery a in
      let y : ℕ = form.as_montgomery b in
      let r : ℕ = form.radix_inverse in
      let low : (x + y) % modulus < modulus = omega arith in
      ap (λ (m : ℕ). form.retrieve (form.from_montgomery m))
        (wrapping_sum x y (form.as_montgomery-lt a) (form.as_montgomery-lt b))
      ∙ retrieve-from_montgomery form ((x + y) % modulus) low
      ∙ mod-mul (x + y) r modulus
      ∙ ap (λ (n : ℕ). n % modulus) (add_mul x y r)
      ∙ add-mod (x * r) (y * r) modulus
      ∙ ap₂ (λ (u v : ℕ). (u + v) % modulus) (sym (form.retrieve_lem a)) (sym (form.retrieve_lem b))

  pub retrieve-negate : (a : E) → form.retrieve (negate a) ≡ (modulus - form.retrieve a) % modulus
  unfolding negate
  retrieve-negate a =
      let x : ℕ = form.as_montgomery a in
      let r : ℕ = form.radix_inverse in
      let m : ℕ = (modulus - x) % modulus in
      let low : m < modulus = omega arith in
      let below : x < modulus = form.as_montgomery-lt a in
      let shift : form.retrieve (negate a) ≡ m * r % modulus =
        ap (λ (n : ℕ). form.retrieve (form.from_montgomery n)) (wrapping_negation x below)
        ∙ retrieve-from_montgomery form m low in
      let whole : (m + x) % modulus ≡ 0 = omega arith in
      negated (form.retrieve (negate a)) (form.retrieve a) (retrieve-lt (negate a)) (retrieve-lt a)
        (ap₂ (λ (u v : ℕ). (u + v) % modulus) shift (form.retrieve_lem a)
          ∙ sym (add-mod (m * r) (x * r) modulus)
          ∙ ap (λ (n : ℕ). n % modulus) (sym (add_mul m x r))
          ∙ sym (mod-mul (m + x) r modulus)
          ∙ ap (λ (n : ℕ). n * r % modulus) whole
          ∙ no_times r)
