-- ===== src/Encoding/Canonical.antt =====
-- `Bn254Fr::try_from_dec` of crates/core/src/field.rs: decimal field elements from outside.
use rs_core.Prelude.{
  ℕ, suc, ◌+◌, ◌-◌, ◌*◌, ◌^◌, ◌≤◌, ◌<◌, ◌≡◌, sym, ap, ◌∙◌, Bool, true, false, not, ◌&&◌, List, [],
  ◌∷◌, arith, ltb, ◌==◌, if◌then◌else◌, length, Bool-cases, inl, inr, lt→ltb, le→ltb, ltb→lt,
  neq→==, ◌↔◌,
}
use native.Mathlib.Nat.{pow-le-pow_right, pow-suc, mul-le-mul_right}
use rs_core.Result.{Result, ok, err, ◌>>=◌, ◌>>◌, ensure, map_err, ok_or, ok_eq, Result-cases}
use rs_core.Assoc.{All}
use rs_core.Bytes.{IsByte, le_bytes}
use rs_core.Wire.{FrInt, modulus, secret_field_from_le_bytes, secret_field_from_le_bytes-le_bytes}
use rs_core.Encoding.{DecimalU256Error, try_decimal_bytes_to_le_32}
use rs_core.Encoding.Decimal.{all_digits, decimal_value, try_decimal_bytes_to_le_32_lem}

pub data Bn254FrError : Type 0 where
  invalid_decimal non_canonical_decimal out_of_range : Bn254FrError

pub of_decimal : DecimalU256Error → Bn254FrError
of_decimal DecimalU256Error.invalid_decimal = Bn254FrError.invalid_decimal
of_decimal DecimalU256Error.out_of_range = Bn254FrError.out_of_range

-- `s.len() > 1 && s.starts_with('0')`
abbrev pub leading_zero : List ℕ → Bool
leading_zero [] = false
leading_zero (c ∷ chars) = ltb 1 (suc (length chars)) && (c == b'0')

module _ {F : Type 0} ⦃int : FrInt F⦄ where
  -- `FIELD_MODULUS_DEC` has 77 digits.
  pub try_from_dec : List ℕ → Result Bn254FrError F
  unfolding of_decimal
  try_from_dec s = if ltb 77 (length s) then err Bn254FrError.out_of_range else (do
    bytes ← map_err of_decimal (try_decimal_bytes_to_le_32 s)
    ensure (not (leading_zero s)) Bn254FrError.non_canonical_decimal
    ok_or (secret_field_from_le_bytes bytes) Bn254FrError.out_of_range)

-- The decimal text of a number: one digit at least, and no zero before another digit.
pub record IsCanonical (s : List ℕ) : Type 0 where
  pub some_text : 0 < length s
  pub digits : all_digits s ≡ true
  pub no_zero : leading_zero s ≡ false

decimal_value-ge : (n : ℕ) (s : List ℕ) → n * 10 ^ length s ≤ decimal_value n s
unfolding decimal_value
decimal_value-ge n [] = omega arith
decimal_value-ge n (c ∷ chars) = omega (
  arith,
  decimal_value-ge (n * 10 + (c - b'0')) chars,
  ap (λ (p : ℕ). n * p) (pow-suc 10 (length chars)),
)

only_digit : (n : ℕ) → 0 * 10 + n ≡ n
only_digit n = omega arith

-- A canonical text of more than 77 digits says a number beyond the modulus.
short : (s : List ℕ) → IsCanonical s → decimal_value 0 s < modulus → length s ≤ 77
unfolding decimal_value
short [] w h = omega arith
short (c ∷ []) w h = omega arith
short (c ∷ d ∷ chars) w h = elim (Bool-cases (ltb 77 (length (c ∷ d ∷ chars)))) [
  | inr few ↦ ground arith
  | inl many ↦
      let long : 77 ≤ length (d ∷ chars) = ground arith in
      let first : 1 ≤ c - b'0' = ground (arith, w.digits, w.no_zero) in
      let big : 10 ^ 77 ≤ 10 ^ length (d ∷ chars) = pow-le-pow_right (omega arith) long in
      let least : (c - b'0') * 10 ^ length (d ∷ chars) ≤ decimal_value (c - b'0') (d ∷ chars) =
        decimal_value-ge (c - b'0') (d ∷ chars) in
      let more : 1 * 10 ^ length (d ∷ chars) ≤ (c - b'0') * 10 ^ length (d ∷ chars) =
        mul-le-mul_right {m = 1} {n = c - b'0'} (10 ^ length (d ∷ chars)) first in
      let start : decimal_value 0 (c ∷ d ∷ chars) ≡ decimal_value (c - b'0') (d ∷ chars) =
        ap (λ (n : ℕ). decimal_value n (d ∷ chars)) (only_digit (c - b'0')) in
      absurd (omega arith)
]

parsed :
    (s : List ℕ) {bytes : List ℕ}
    → All IsByte s
    → try_decimal_bytes_to_le_32 s ≡ ok bytes
    → (0 < length s)
      × (all_digits s ≡ true)
      × (decimal_value 0 s < 2 ^ 256)
      × (bytes ≡ le_bytes 32 (decimal_value 0 s))
parsed s {bytes} b h = ground (arith, try_decimal_bytes_to_le_32_lem s b)

module _ {F : Type 0} ⦃int : FrInt F⦄ where
  -- The checks of `try_from_dec` on a canonical text.
  canonical_run :
      (s : List ℕ)
      → All IsByte s
      → IsCanonical s
      → decimal_value 0 s < modulus
      → try_from_dec s ≡ ok (int.from_int (decimal_value 0 s))
  unfolding try_from_dec
  canonical_run s b w h =
      let few : length s ≤ 77 = short s w h in
      let some_text : 0 < length s = w.some_text in
      let read : try_decimal_bytes_to_le_32 s ≡ ok (le_bytes 32 (decimal_value 0 s)) =
        try_decimal_bytes_to_le_32_lem s b
        ∙ rw (
          neq→== (length s) 0 (λ e. omega arith),
          le→ltb 78 (length s) (omega arith),
          w.digits,
          lt→ltb (decimal_value 0 s) (2 ^ 256) (omega arith),
        ) in
      rw (
        le→ltb 77 (length s) few,
        read,
        w.no_zero,
        secret_field_from_le_bytes-le_bytes {F = F} (decimal_value 0 s) (omega arith),
        lt→ltb (decimal_value 0 s) modulus h,
      )

  accepted :
      (s : List ℕ) (x : F)
      → All IsByte s
      → try_from_dec s ≡ ok x
      → IsCanonical s × (decimal_value 0 s < modulus) × (int.from_int (decimal_value 0 s) ≡ x)
  unfolding try_from_dec
  accepted s x b h = elim (Bool-cases (ltb 77 (length s))) [
    | inl long ↦ let k = rw long at h in cc
    | inr few ↦
        let k = rw few at h in
        elim (Result-cases {A = List ℕ} (try_decimal_bytes_to_le_32 s)) [
          | inr (e, bad) ↦ let k1 = rw bad at k in cc
          | inl (bytes, read) ↦
              let k1 = rw read at k in
              let (some_text, digits, fits, same) = parsed s b read in
              elim (Bool-cases (leading_zero s)) [
                | inl zeros ↦ let k2 = rw zeros at k1 in cc
                | inr plain ↦
                    let k2 = rw plain at k1 in
                    let k3 =
                      rw
                        (same, secret_field_from_le_bytes-le_bytes {F = F} (decimal_value 0 s) fits)
                        at k2 in
                    elim (Bool-cases (ltb (decimal_value 0 s) modulus)) [
                      | inr big ↦ let k4 = rw big at k3 in cc
                      | inl low ↦
                          let k4 = rw low at k3 in
                          (
                            record { some_text = some_text; digits = digits; no_zero = plain },
                            ltb→lt (decimal_value 0 s) modulus low,
                            ok_eq k4,
                          )
                    ]
              ]
        ]
  ]

  -- On the bytes of a text, `try_from_dec` returns the field element `x` exactly if the text is the
  -- canonical decimal of the integer of `x`: digits, one at least, with no zero before another
  -- digit. So every element has one text, and a number at or above the modulus is not reduced.
  pub try_from_dec_iff :
      (s : List ℕ) (x : F)
      → All IsByte s
      → (try_from_dec s ≡ ok x) ↔ (IsCanonical s × (decimal_value 0 s ≡ int.to_int x))
  try_from_dec_iff s x b = (
    λ h.
        let (w, low, e) = accepted s x b h in
        (w, sym (int.to_int-from_int (decimal_value 0 s) low) ∙ ap int.to_int e),
    λ (w, e).
        let below : int.to_int x < modulus = int.to_int-lt x in
        canonical_run s b w (omega arith) ∙ ap ok (ap int.from_int e ∙ int.from_int-to_int x),
  )
