-- ===== src/Snapshot.antt =====
-- The readers and writers of the binary snapshots of crates/core/src/imt.rs. A reader's cursor is
-- the list of the bytes from the cursor on.
pub mod Codec
mod Examples
use mathlib.Core.Path.{subst}
use rs_core.Prelude.{
  ℕ, zero, suc, ◌+◌, ◌*◌, ◌^◌, ◌≤◌, ◌<◌, ◌≡◌, refl, sym, ap, ap₂, ◌∙◌, List, [], ◌∷◌, ◌++◌, none,
  some, arith, length, length-append, length-drop, le→leb, take, drop, append_assoc, append-nil,
  Option-cases, inl, inr,
}
use rs_core.Outcome.{
  Outcome, SnapshotFault, ok, err, ◌>>=◌, ok_or, invalid_snapshot, truncated_u32, truncated_field,
  non_canonical_element, >>=-ok,
}
use rs_core.Assoc.{All}
use rs_core.Bytes.{
  IsByte, All-left, All-right, get_range, get_range-append, get_range_ok, be_bytes, from_be,
  length-be_bytes, from_be-be_bytes, be_bytes-from_be, from_be-lt, drop-append_prefix,
}
use rs_core.Wire.{
  FrInt, fr_to_be_32, fr_from_be_32_checked, length-fr_to_be_32, fr_from_be_32_checked-fr_to_be_32,
  fr_to_be_32-fr_from_be_32_checked,
}

-- `*bytes.get(cursor).ok_or_else(…)?` and `cursor += 1`
abbrev pub read_byte : SnapshotFault → List ℕ → Outcome (ℕ × List ℕ)
read_byte fault [] = err (invalid_snapshot fault)
read_byte fault (b ∷ rest) = ok (b, rest)

unfoldable pub read_u32 : List ℕ → ℕ → Outcome ℕ
read_u32 bytes offset = do
  (raw, _) ← ok_or (get_range 4 (drop offset bytes)) (invalid_snapshot truncated_u32)
  ok (from_be raw)

pub read_u32_inside :
    (bytes : List ℕ) (offset : ℕ)
    → offset + 4 ≤ length bytes
    → read_u32 bytes offset ≡ ok (from_be (take 4 (drop offset bytes)))
unfolding read_u32 get_range
read_u32_inside bytes offset h =
    rw (le→leb 4 (length (drop offset bytes)) (omega (arith, length-drop offset bytes)))

pub read_u32_at_cursor : List ℕ → Outcome (ℕ × List ℕ)
unfolding read_u32
read_u32_at_cursor rest = do value ← read_u32 rest 0; ok (value, drop 4 rest)

pub read_u32_at_cursor-be_bytes :
    (n : ℕ) (rest : List ℕ) → n < 2 ^ 32 → read_u32_at_cursor (be_bytes 4 n ++ rest) ≡ ok (n, rest)
unfolding read_u32_at_cursor read_u32
read_u32_at_cursor-be_bytes n rest h =
    rw (get_range-append 4 (be_bytes 4 n) rest (length-be_bytes 4 n)) (
      ap₂ (λ a b. ok (a, b)) (from_be-be_bytes 4 n h)
        (drop-append_prefix 4 (be_bytes 4 n) rest (length-be_bytes 4 n)))

-- Four bytes read at an offset are the number's own.
pub read_u32_ok :
    (bytes : List ℕ) (offset : ℕ) {n : ℕ}
    → All IsByte (drop offset bytes)
    → read_u32 bytes offset ≡ ok n
    → (drop offset bytes ≡ be_bytes 4 n ++ drop 4 (drop offset bytes)) × (n < 2 ^ 32)
unfolding read_u32
read_u32_ok bytes offset {n} b h = elim (Option-cases (get_range 4 (drop offset bytes))) [
  | inl short ↦ let k = rw short at h in cc
  | inr ((raw, rest), read) ↦
      let k = rw read at h in
      let (cut, four) = get_range_ok 4 (drop offset bytes) read in
      let b' : All IsByte raw = All-left IsByte raw rest (subst (All IsByte) cut b) in
      let value : from_be raw ≡ n = (cc) in
      let back : be_bytes 4 (from_be raw) ≡ raw =
        ap (λ j. be_bytes j (from_be raw)) (sym four) ∙ be_bytes-from_be raw b' in
      let behind : drop 4 (drop offset bytes) ≡ rest =
        ap (drop 4) cut ∙ drop-append_prefix 4 raw rest four in
      (
        cut ∙ ap₂ (λ (s t : List ℕ). s ++ t) (sym back ∙ ap (be_bytes 4) value) (sym behind),
        rw (four, value) at (from_be-lt raw b'),
      )
]

pub read_u32_at_cursor_ok :
    (bytes : List ℕ) {n : ℕ} {rest : List ℕ}
    → All IsByte bytes
    → read_u32_at_cursor bytes ≡ ok (n, rest)
    → (bytes ≡ be_bytes 4 n ++ rest) × (n < 2 ^ 32)
unfolding read_u32_at_cursor
read_u32_at_cursor_ok bytes {n} {rest} b h =
    let (m, read, k) = >>=-ok (λ (value : ℕ). ok (value, drop 4 bytes)) (read_u32 bytes 0) h in
    let same : m ≡ n = (cc) in
    let behind : drop 4 bytes ≡ rest = (cc) in
    let read' : read_u32 bytes 0 ≡ ok n = rw same at read in
    rw behind at (read_u32_ok bytes 0 b read')

module _ {F : Type 0} ⦃int : FrInt F⦄ where
  unfoldable pub append_fields : List ℕ → List F → List ℕ
  append_fields bytes [] = bytes
  append_fields bytes (x ∷ xs) = append_fields (bytes ++ fr_to_be_32 x) xs

  pub read_field : List ℕ → Outcome (F × List ℕ)
  read_field bytes = do
    (raw, rest) ← ok_or (get_range 32 bytes) (invalid_snapshot truncated_field)
    field ← ok_or (fr_from_be_32_checked raw) (invalid_snapshot non_canonical_element)
    ok (field, rest)

  pub read_fields : List ℕ → ℕ → Outcome (List F × List ℕ)
  read_fields bytes zero = ok ([], bytes)
  read_fields bytes (suc count) = do
    (field, rest) ← read_field bytes
    (fields, rest') ← read_fields rest count
    ok (field ∷ fields, rest')

  pub read_field-fr_to_be_32 :
      (x : F) (rest : List ℕ) → read_field (fr_to_be_32 x ++ rest) ≡ ok (x, rest)
  unfolding read_field
  read_field-fr_to_be_32 x rest = rw (
    get_range-append 32 (fr_to_be_32 x) rest (length-fr_to_be_32 x),
    fr_from_be_32_checked-fr_to_be_32 x,
  )

  pub read_field_ok :
      (bytes : List ℕ) {x : F} {rest : List ℕ}
      → All IsByte bytes
      → read_field bytes ≡ ok (x, rest)
      → bytes ≡ fr_to_be_32 x ++ rest
  unfolding read_field
  read_field_ok bytes {x} {rest} b h = elim (Option-cases (get_range 32 bytes)) [
    | inl short ↦ let k = rw short at h in cc
    | inr ((raw, rest'), read) ↦
        let k = rw read at h in
        let (cut, _) = get_range_ok 32 bytes read in
        elim (Option-cases {A = F} (fr_from_be_32_checked raw)) [
          | inl bad ↦ let k' = rw bad at k in cc
          | inr (y, good) ↦
              let k' = rw good at k in
              let same : y ≡ x = (cc) in
              let behind : rest' ≡ rest = (cc) in
              cut
              ∙ ap₂ (λ (s t : List ℕ). s ++ t)
                  (sym (
                      fr_to_be_32-fr_from_be_32_checked raw
                        (All-left IsByte raw rest' (subst (All IsByte) cut b)) good)
                    ∙ ap fr_to_be_32 same)
                  behind
        ]
  ]

  -- The bytes of a list of fields, one behind the other.
  unfoldable pub fields_bytes : List F → List ℕ
  fields_bytes [] = []
  fields_bytes (x ∷ xs) = fr_to_be_32 x ++ fields_bytes xs

  pub length-fields_bytes : (xs : List F) → length (fields_bytes xs) ≡ 32 * length xs
  unfolding fields_bytes
  length-fields_bytes [] = omega arith
  length-fields_bytes (x ∷ xs) = omega (
    arith,
    length-append (fr_to_be_32 x) (fields_bytes xs),
    length-fr_to_be_32 x,
    length-fields_bytes xs,
  )

  pub append_fields_lem :
      (bytes : List ℕ) (xs : List F) → append_fields bytes xs ≡ bytes ++ fields_bytes xs
  unfolding append_fields fields_bytes
  append_fields_lem bytes [] = sym (append-nil bytes)
  append_fields_lem bytes (x ∷ xs) =
      append_fields_lem (bytes ++ fr_to_be_32 x) xs
      ∙ append_assoc bytes (fr_to_be_32 x) (fields_bytes xs)

  pub read_fields-fields_bytes :
      (xs : List F) (rest : List ℕ)
      → read_fields (fields_bytes xs ++ rest) (length xs) ≡ ok (xs, rest)
  unfolding read_fields fields_bytes
  read_fields-fields_bytes [] rest = refl
  read_fields-fields_bytes (x ∷ xs) rest = rw (
    append_assoc (fr_to_be_32 x) (fields_bytes xs) rest,
    read_field-fr_to_be_32 x (fields_bytes xs ++ rest),
    read_fields-fields_bytes xs rest,
  )

  pub read_fields_ok :
      (bytes : List ℕ) (count : ℕ) {xs : List F} {rest : List ℕ}
      → All IsByte bytes
      → read_fields bytes count ≡ ok (xs, rest)
      → (bytes ≡ fields_bytes xs ++ rest) × (length xs ≡ count)
  unfolding read_fields fields_bytes
  read_fields_ok bytes zero {xs} {rest} b h =
      let none_read : [] ≡ xs = (cc) in
      let same : bytes ≡ rest = (cc) in
      (same ∙ ap (λ ys. fields_bytes ys ++ rest) none_read, ap length (sym none_read))
  read_fields_ok bytes (suc count) {xs} {rest} b h =
      let ((x, rest1), one, k) =
        >>=-ok
          (λ (r : F × List ℕ).
            read_fields r.1 count >>= λ (q : List F × List ℕ). ok (r.0 ∷ q.0, q.1))
          (read_field bytes) h in
      let ((ys, rest2), more, k') =
        >>=-ok (λ (q : List F × List ℕ). ok (x ∷ q.0, q.1)) (read_fields rest1 count) k in
      let same : x ∷ ys ≡ xs = (cc) in
      let behind : rest2 ≡ rest = (cc) in
      let cut : bytes ≡ fr_to_be_32 x ++ rest1 = read_field_ok bytes b one in
      let b' : All IsByte rest1 =
        All-right IsByte (fr_to_be_32 x) rest1 (subst (All IsByte) cut b) in
      let (cut', count') = read_fields_ok rest1 count b' more in
      (
        cut
            ∙ ap (λ (s : List ℕ). fr_to_be_32 x ++ s) cut'
            ∙ sym (append_assoc (fr_to_be_32 x) (fields_bytes ys) rest2)
            ∙ ap₂ (λ (zs : List F) (s : List ℕ). fields_bytes zs ++ s) same behind,
        sym (ap length same) ∙ ap suc count',
      )
