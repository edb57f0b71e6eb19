-- ===== src/Wire/Packed.antt =====
-- Concatenated field elements: `fr_from_be_32_packed` and `fr_to_be_32_packed` of
-- crates/core/src/field.rs.
use rs_core.Prelude.{
  ℕ, zero, suc, ◌+◌, ◌*◌, ◌/◌, ◌%◌, ◌≡◌, refl, sym, ap, ap₂, ◌∙◌, List, [], ◌∷◌, ◌++◌, arith,
  length, length-append, length-drop, ◌==◌, take, drop, take-append-drop, ◌↔◌, Bool-cases,
  Option-cases, inl, inr, eq→==,
}
use mathlib.Core.Path.{subst}
use rs_core.Result.{Result, ok, ◌>>=◌, ◌>>◌, ensure, ok_or, Result-cases}
use rs_core.Assoc.{All}
use rs_core.Bytes.{IsByte, All-left, All-right, take-append_prefix, drop-append_prefix}
use rs_core.Wire.{
  FrInt, fr_to_be_32, fr_from_be_32_checked, length-fr_to_be_32, fr_from_be_32_checked-fr_to_be_32,
  fr_to_be_32-fr_from_be_32_checked,
}

pub data PackedFieldsError : Type 0 where
  packed_length : ℕ → PackedFieldsError
  non_canonical : ℕ → PackedFieldsError

module _ {F : Type 0} ⦃int : FrInt F⦄ where
  -- The loop over `as_chunks::<32>()`: the chunks left, the number of the next one, the bytes.
  pub packed_loop : ℕ → ℕ → List ℕ → Result PackedFieldsError (List F)
  packed_loop zero i bytes = ok []
  packed_loop (suc k) i bytes = do
    x ← ok_or (fr_from_be_32_checked (take 32 bytes)) (non_canonical i)
    xs ← packed_loop k (i + 1) (drop 32 bytes)
    ok (x ∷ xs)

  unfoldable pub fr_from_be_32_packed : List ℕ → Result PackedFieldsError (List F)
  fr_from_be_32_packed bytes = do
    ensure (length bytes % 32 == 0) (packed_length (length bytes))
    packed_loop (length bytes / 32) 0 bytes

  unfoldable pub fr_to_be_32_packed : List F → List ℕ
  fr_to_be_32_packed [] = []
  fr_to_be_32_packed (x ∷ xs) = fr_to_be_32 x ++ fr_to_be_32_packed xs

  pub length-fr_to_be_32_packed : (xs : List F) → length (fr_to_be_32_packed xs) ≡ 32 * length xs
  unfolding fr_to_be_32_packed
  length-fr_to_be_32_packed [] = omega arith
  length-fr_to_be_32_packed (x ∷ xs) = omega (
    arith,
    length-append (fr_to_be_32 x) (fr_to_be_32_packed xs),
    length-fr_to_be_32 x,
    length-fr_to_be_32_packed xs,
  )

  packed_loop-fr_to_be_32_packed :
      (xs : List F) (i : ℕ) → packed_loop (length xs) i (fr_to_be_32_packed xs) ≡ ok xs
  unfolding packed_loop fr_to_be_32_packed
  packed_loop-fr_to_be_32_packed [] i = refl
  packed_loop-fr_to_be_32_packed (x ∷ xs) i = rw (
    take-append_prefix 32 (fr_to_be_32 x) (fr_to_be_32_packed xs) (length-fr_to_be_32 x),
    drop-append_prefix 32 (fr_to_be_32 x) (fr_to_be_32_packed xs) (length-fr_to_be_32 x),
    fr_from_be_32_checked-fr_to_be_32 x,
    packed_loop-fr_to_be_32_packed xs (i + 1),
  )

  fr_to_be_32_packed-packed_loop :
      (k i : ℕ) (bytes : List ℕ) (xs : List F)
      → All IsByte bytes
      → length bytes ≡ 32 * k
      → packed_loop k i bytes ≡ ok xs
      → fr_to_be_32_packed xs ≡ bytes
  unfolding packed_loop fr_to_be_32_packed
  fr_to_be_32_packed-packed_loop zero i [] xs b l h =
      let e : [] ≡ xs = (cc) in ap fr_to_be_32_packed (sym e)
  fr_to_be_32_packed-packed_loop zero i (x ∷ bytes) xs b l h = absurd (omega arith)
  fr_to_be_32_packed-packed_loop (suc k) i bytes xs b l h =
      let cut : take 32 bytes ++ drop 32 bytes ≡ bytes = take-append-drop 32 bytes in
      let b' : All IsByte (take 32 bytes ++ drop 32 bytes) = subst (All IsByte) (sym cut) b in
      elim (Option-cases {A = F} (fr_from_be_32_checked (take 32 bytes))) [
        | inl bad ↦ let e = rw bad at h in cc
        | inr (x, good) ↦
            let e = rw good at h in
            elim (Result-cases {A = List F} (packed_loop k (i + 1) (drop 32 bytes))) [
              | inr (fault, stop) ↦ let e' = rw stop at e in cc
              | inl (more, rest) ↦
                  let e' : x ∷ more ≡ xs = (let e' = rw rest at e in cc) in
                  ap fr_to_be_32_packed (sym e')
                  ∙ ap₂ (λ (s t : List ℕ). s ++ t)
                      (fr_to_be_32-fr_from_be_32_checked (take 32 bytes)
                        (All-left IsByte (take 32 bytes) (drop 32 bytes) b') good)
                      (fr_to_be_32_packed-packed_loop k (i + 1) (drop 32 bytes) more
                        (All-right IsByte (take 32 bytes) (drop 32 bytes) b')
                        (omega (arith, length-drop 32 bytes)) rest)
                  ∙ cut
            ]
      ]

  -- On bytes, `fr_from_be_32_packed` returns the elements `xs` exactly if the bytes are what
  -- `fr_to_be_32_packed` makes of `xs`: every list of elements is read back, and nothing else
  -- is accepted, such as an element at or above the modulus or a length off a multiple of 32.
  pub fr_from_be_32_packed_iff :
      (bytes : List ℕ) (xs : List F)
      → All IsByte bytes
      → (fr_from_be_32_packed bytes ≡ ok xs) ↔ (fr_to_be_32_packed xs ≡ bytes)
  unfolding fr_from_be_32_packed
  fr_from_be_32_packed_iff bytes xs b = (
    λ h. elim (Bool-cases (length bytes % 32 == 0)) [
      | inr odd ↦ let e = rw odd at h in cc
      | inl even ↦
          fr_to_be_32_packed-packed_loop (length bytes / 32) 0 bytes xs b (ground arith)
            (rw even at h)
    ],
    λ e.
        subst (λ s. fr_from_be_32_packed s ≡ ok xs) e
          (let l : length (fr_to_be_32_packed xs) ≡ 32 * length xs = length-fr_to_be_32_packed xs in
            rw (eq→== (length (fr_to_be_32_packed xs) % 32) 0 (omega arith)) (
              ap (λ k. packed_loop k 0 (fr_to_be_32_packed xs)) (omega arith)
              ∙ packed_loop-fr_to_be_32_packed xs 0)),
  )
