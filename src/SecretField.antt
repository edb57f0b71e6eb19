-- ===== src/SecretField.antt =====
-- The fixed-width arithmetic of crates/core/src/secret_field.rs, and the reducing decimal parser of
-- crates/core/src/field.rs that stands on it. A `U256` is a number, its wrapping sums and differences
-- are remainders by `2 ^ 256`, and a constant-time selection is an `if`. `ConstMontyForm` of
-- crypto-bigint is a parameter.
pub mod Residues
pub mod Reducing
mod Examples
use rs_core.Prelude.{
  ℕ, zero, suc, ◌+◌, ◌-◌, ◌*◌, ◌%◌, ◌^◌, ◌<◌, ◌≡◌, Bool, true, false, not, ◌||◌, List, [], ◌∷◌, ltb,
  ◌==◌, if◌then◌else◌, length, take, drop,
}
use rs_core.Result.{Result, ok, err}
use rs_core.Wire.{modulus}
use rs_core.Encoding.{digit}
use rs_core.Encoding.Canonical.{Bn254FrError}

-- `ConstMontyForm<BaseModulus>` with `Element` for its values: the residue of an element is the
-- element times the radix, so that `retrieve` multiplies the residue by the radix's inverse.
pub record Montgomery (E : Type 0) : Type 0 where
  pub radix_inverse : ℕ
  pub as_montgomery : E → ℕ
  pub from_montgomery : ℕ → E
  pub new : ℕ → E
  pub mul : E → E → E
  pub retrieve : E → ℕ
  pub as_montgomery-lt : (a : E) → as_montgomery a < modulus
  pub as_montgomery-from_montgomery : (m : ℕ) → m < modulus → as_montgomery (from_montgomery m) ≡ m
  pub retrieve_lem : (a : E) → retrieve a ≡ as_montgomery a * radix_inverse % modulus
  pub retrieve-new : (n : ℕ) → n < 2 ^ 256 → retrieve (new n) ≡ n % modulus
  pub retrieve-mul : (a b : E) → retrieve (mul a b) ≡ retrieve a * retrieve b % modulus

-- The inner loop over the characters of a chunk, with the flag `invalid`.
pub word_loop : ℕ → Bool → List ℕ → ℕ × Bool
word_loop word invalid [] = (word, invalid)
word_loop word invalid (c ∷ chars) =
    word_loop ((word * 10 % 2 ^ 64 + digit c) % 2 ^ 64) (invalid || ltb 9 (digit c)) chars

module _ {E : Type 0} ⦃form : Montgomery E⦄ where
  pub add : E → E → E
  add left right =
      let sum = (form.as_montgomery left + form.as_montgomery right) % 2 ^ 256 in
      let reduced = (sum + 2 ^ 256 - modulus) % 2 ^ 256 in
      form.from_montgomery (if not (ltb sum modulus) then reduced else sum)

  pub negate : E → E
  negate value =
      let difference = (2 ^ 256 - form.as_montgomery value) % 2 ^ 256 in
      let borrow = ltb 0 (form.as_montgomery value) in
      let corrected = (difference + modulus) % 2 ^ 256 in
      form.from_montgomery (if borrow then corrected else difference)

  -- `for chunk in digits.chunks(19)`, on fuel: a chunk has at least one character. `10 ^ 19` is below
  -- `2 ^ 64`, so the power does not overflow.
  pub chunk_loop : (fuel : ℕ) → E → Bool → List ℕ → E × Bool
  unfolding add word_loop
  chunk_loop zero value invalid digits = (value, invalid)
  chunk_loop (suc fuel) value invalid [] = (value, invalid)
  chunk_loop (suc fuel) value invalid (c ∷ digits) =
      let chunk = take 19 (c ∷ digits) in
      let step = word_loop 0 invalid chunk in
      let scale = form.new (10 ^ length chunk) in
      chunk_loop fuel (add (form.mul value scale) (form.new step.0)) step.1 (drop 19 (c ∷ digits))

-- `s.first() == Some(&b'-')`
pub is_negative : List ℕ → Bool
is_negative [] = false
is_negative (c ∷ chars) = c == b'-'

-- `into_ark` copies the residue: it is the field's own, a parameter.
module _ {E F : Type 0} ⦃form : Montgomery E⦄ (into_ark : E → F) where
  pub try_fr_from_decimal_bytes : List ℕ → Result Bn254FrError F
  unfolding is_negative chunk_loop negate
  try_fr_from_decimal_bytes s =
      let negative = is_negative s in
      let digits = drop (if negative then 1 else 0) s in
      let run = chunk_loop (length digits) (form.new 0) false digits in
      if length digits == 0
      then err Bn254FrError.invalid_decimal
      else if run.1
      then err Bn254FrError.invalid_decimal
      else ok (
          into_ark (
            form.from_montgomery
              (if negative then form.as_montgomery (negate run.0) else form.as_montgomery run.0)))
