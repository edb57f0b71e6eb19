-- ===== src/SecretField/Examples.antt =====
-- The text `-300` with residues of radix `2 ^ 256`.
use rs_core.Prelude.{
  ℕ, ◌-◌, ◌*◌, ◌%◌, ◌^◌, ◌<◌, ◌≡◌, refl, sym, ap, ◌∙◌, ◌||◌, not, ◌==◌, if◌then◌else◌, List, [],
  ◌∷◌, length, drop, arith,
}
use rs_core.Result.{ok, err}
use rs_core.Wire.{modulus}
use rs_core.Encoding.Canonical.{Bn254FrError}
use rs_core.Encoding.Decimal.{all_digits, decimal_value}
use rs_core.SecretField.{Montgomery, is_negative, try_fr_from_decimal_bytes}
use rs_core.SecretField.Residues.{mod-mul, mod-mul_both}
use rs_core.SecretField.Reducing.{try_fr_from_decimal_bytes_lem}
use rs_core.Toy.{Residue, residue, residue_int, residue_first, to_int-residue_first}

-- The inverse of `2 ^ 256`.
abbrev inverse : ℕ
inverse = 9915499612839321149637521777990102151350674507940716049588462388200839649614

residue_below : (m : ℕ) → m < modulus → (residue m).0 ≡ m
residue_below m h = residue_first m ∙ omega arith

retrieve_new : (n : ℕ) → (residue (n * 2 ^ 256)).0 * inverse % modulus ≡ n % modulus
retrieve_new n =
    ap (λ (m : ℕ). m * inverse % modulus) (residue_first (n * 2 ^ 256))
    ∙ mod-mul (n * 2 ^ 256) inverse modulus
    ∙ omega arith

regroup : (a b : ℕ) → a * b * inverse * inverse ≡ a * inverse * (b * inverse)
regroup a b = omega arith

retrieve_mul :
    (a b : ℕ)
    → (residue (a * b * inverse)).0 * inverse % modulus
      ≡ a * inverse % modulus * (b * inverse % modulus) % modulus
retrieve_mul a b =
    ap (λ (m : ℕ). m * inverse % modulus) (residue_first (a * b * inverse))
    ∙ mod-mul (a * b * inverse) inverse modulus
    ∙ ap (λ (k : ℕ). k % modulus) (regroup a b)
    ∙ sym (mod-mul_both (a * inverse) (b * inverse) modulus)

instance abbrev residue_form : Montgomery Residue
residue_form = record {
  radix_inverse = inverse;
  as_montgomery = λ a. a.0;
  from_montgomery = residue;
  new = λ n. residue (n * 2 ^ 256);
  mul = λ a b. residue (a.0 * b.0 * inverse);
  retrieve = λ a. a.0 * inverse % modulus;
  as_montgomery-lt = λ a. a.1;
  as_montgomery-from_montgomery = residue_below;
  retrieve_lem = λ a. refl;
  retrieve-new = λ n h. retrieve_new n;
  retrieve-mul = λ a b. retrieve_mul a.0 b.0;
}

abbrev into_ark : Residue → Residue
into_ark a = residue (a.0 * inverse)

into_ark_kept : (a : Residue) → residue_int.to_int (into_ark a) ≡ residue_form.retrieve a
into_ark_kept a = to_int-residue_first (into_ark a) ∙ residue_first (a.0 * inverse)

abbrev minus_three_hundred : List ℕ
minus_three_hundred = b'-' ∷ b'3' ∷ b'0' ∷ b'0' ∷ []

try_fr_from_decimal_bytes_lem_example :
    (let digits = drop (if is_negative minus_three_hundred then 1 else 0) minus_three_hundred in
      try_fr_from_decimal_bytes into_ark minus_three_hundred ≡ (
        if length digits == 0 || not (all_digits digits)
        then err Bn254FrError.invalid_decimal
        else ok (
            residue_int.from_int (
              if is_negative minus_three_hundred
              then (modulus - decimal_value 0 digits % modulus) % modulus
              else decimal_value 0 digits % modulus))))
try_fr_from_decimal_bytes_lem_example =
    try_fr_from_decimal_bytes_lem into_ark into_ark_kept minus_three_hundred (omega arith)
