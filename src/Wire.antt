-- ===== src/Wire.antt =====
-- Field elements as bytes: crates/core/src/field.rs and the conversions of
-- crates/core/src/secret_field.rs that it calls. The Montgomery form of ark-ff and crypto-bigint
-- is a parameter, of which only the integer below the modulus is read: `to_int` is
-- `from_ark(x).retrieve()`, `from_int` is `into_ark(Element::new(&n))`.
pub mod Packed
mod Examples
use rs_core.Prelude.{
  ℕ, ◌+◌, ◌*◌, ◌/◌, ◌%◌, ◌^◌, ◌≤◌, ◌<◌, ◌≡◌, refl, sym, ap, ◌∙◌, List, Option, none, some, arith,
  length, ltb, ◌==◌, if◌then◌else◌, lt→ltb, ltb→lt, eq→==, ==→eq, Bool-cases, inl, inr,
}
use rs_core.Assoc.{All}
use rs_core.Bytes.{
  IsByte, reverse, length-reverse, reverse-reverse, All-reverse, le_bytes, from_le, length-le_bytes,
  le_bytes-IsByte, from_le-le_bytes, le_bytes-from_le,
}

-- `BaseModulus`
abbrev pub modulus : ℕ
modulus = 0x30644e72e131a029b85045b68181585d2833e84879b9709143e1f593f0000001

pub record FrInt (F : Type 0) : Type 0 where
  pub to_int : F → ℕ
  pub from_int : ℕ → F
  pub to_int-lt : (x : F) → to_int x < modulus
  pub from_int-to_int : (x : F) → from_int (to_int x) ≡ x
  pub to_int-from_int : (n : ℕ) → n < modulus → to_int (from_int n) ≡ n

module _ {F : Type 0} ⦃int : FrInt F⦄ where
  pub secret_field_to_le_bytes : F → List ℕ
  secret_field_to_le_bytes x = le_bytes 32 (int.to_int x)

  -- `bytes` has 32 bytes.
  pub secret_field_from_le_bytes : List ℕ → Option F
  secret_field_from_le_bytes bytes =
      if ltb (from_le bytes) modulus then some (int.from_int (from_le bytes)) else none

  unfoldable pub fr_to_be_32 : F → List ℕ
  unfolding secret_field_to_le_bytes
  fr_to_be_32 x = reverse (secret_field_to_le_bytes x)

  unfoldable pub fr_from_be_32_checked : List ℕ → Option F
  unfolding secret_field_from_le_bytes
  fr_from_be_32_checked bytes =
      if length bytes == 32 then secret_field_from_le_bytes (reverse bytes) else none

  pub length-fr_to_be_32 : (x : F) → length (fr_to_be_32 x) ≡ 32
  unfolding fr_to_be_32 secret_field_to_le_bytes
  length-fr_to_be_32 x =
      length-reverse (le_bytes 32 (int.to_int x)) ∙ length-le_bytes 32 (int.to_int x)

  pub fr_to_be_32-IsByte : (x : F) → All IsByte (fr_to_be_32 x)
  unfolding fr_to_be_32 secret_field_to_le_bytes
  fr_to_be_32-IsByte x =
      All-reverse IsByte (le_bytes 32 (int.to_int x)) (le_bytes-IsByte 32 (int.to_int x))

  -- The checked decoder reads back the encoding of every field element.
  pub fr_from_be_32_checked-fr_to_be_32 : (x : F) → fr_from_be_32_checked (fr_to_be_32 x) ≡ some x
  unfolding fr_to_be_32 fr_from_be_32_checked secret_field_to_le_bytes secret_field_from_le_bytes
  fr_from_be_32_checked-fr_to_be_32 x =
      let n : ℕ = int.to_int x in
      let below : n < modulus = int.to_int-lt x in
      let e : from_le (le_bytes 32 n) ≡ n = from_le-le_bytes 32 n (omega arith) in
      rw
        (eq→== (length (reverse (le_bytes 32 n))) 32
          (length-reverse (le_bytes 32 n) ∙ length-le_bytes 32 n))
        (rw (reverse-reverse (le_bytes 32 n))
          (rw e (rw (lt→ltb n modulus below) (ap some (int.from_int-to_int x)))))

  -- What it accepts is the encoding of the element it gives: no second encoding of an element.
  pub fr_to_be_32-fr_from_be_32_checked :
      (bytes : List ℕ) {x : F}
      → All IsByte bytes
      → fr_from_be_32_checked bytes ≡ some x
      → fr_to_be_32 x ≡ bytes
  unfolding fr_to_be_32 fr_from_be_32_checked secret_field_to_le_bytes secret_field_from_le_bytes
  fr_to_be_32-fr_from_be_32_checked bytes {x} b h = elim (Bool-cases (length bytes == 32)) [
    | inr other ↦ let k = rw other at h in cc
    | inl right ↦
        let k = rw right at h in
        let l : length bytes ≡ 32 = ==→eq (length bytes) 32 right in
        let n : ℕ = from_le (reverse bytes) in
        elim (Bool-cases (ltb n modulus)) [
          | inr big ↦ let k' = rw big at k in cc
          | inl small ↦
              let e : int.from_int n ≡ x = (let k' = rw small at k in cc) in
              let i : int.to_int x ≡ n =
                ap int.to_int (sym e) ∙ int.to_int-from_int n (ltb→lt n modulus small) in
              ap (λ m. reverse (le_bytes 32 m)) i
              ∙ ap (λ m. reverse (le_bytes m n)) (sym l ∙ sym (length-reverse bytes))
              ∙ ap reverse (le_bytes-from_le (reverse bytes) (All-reverse IsByte bytes b))
              ∙ reverse-reverse bytes
        ]
  ]

  -- Reading a number of 256 bits.
  pub secret_field_from_le_bytes-le_bytes :
      (n : ℕ)
      → n < 2 ^ 256
      → secret_field_from_le_bytes (le_bytes 32 n)
        ≡ (if ltb n modulus then some (int.from_int n) else none)
  unfolding secret_field_from_le_bytes
  secret_field_from_le_bytes-le_bytes n h = rw (from_le-le_bytes 32 n h)
