-- ===== src/Encoding/Hex.antt =====
-- Hexadecimal: what `from_hex_exact` accepts is the text of its bytes, and `from_hex_lossy` reads
-- the same bytes of it.
use mathlib.Core.Path.{subst}
use rs_core.Prelude.{
  ℕ, ◌+◌, ◌-◌, ◌*◌, ◌/◌, ◌%◌, ◌<◌, ◌≡◌, refl, ap, ◌∙◌, false, List, [], ◌∷◌, some, arith, ltb,
  if◌then◌else◌, length, Option-cases, inl, inr, eq→==,
}
use rs_core.Result.{Result, ok, Result-cases, ok_eq}
use rs_core.Assoc.{All}
use rs_core.Bytes.{IsByte}
use rs_core.Encoding.{
  HexDecodeError, hex_nibble, from_hex_lossy, has_prefix, hex_pairs, from_hex_exact,
}

-- `{byte:02x}`, the lower-case text of bytes.
unfoldable pub hex_digit : ℕ → ℕ
hex_digit n = if ltb n 10 then b'0' + n else b'a' + (n - 10)

unfoldable pub to_hex : List ℕ → List ℕ
to_hex [] = []
to_hex (byte ∷ bytes) = hex_digit (byte / 16) ∷ hex_digit (byte % 16) ∷ to_hex bytes

hex_nibble-hex_digit : (n : ℕ) → n < 16 → hex_nibble (hex_digit n) ≡ some n
unfolding hex_nibble hex_digit
hex_nibble-hex_digit n h = ground arith

hex_nibble-lt : (c : ℕ) {n : ℕ} → hex_nibble c ≡ some n → n < 16
unfolding hex_nibble
hex_nibble-lt c h = ground arith

no_prefix : (bytes : List ℕ) → has_prefix (to_hex bytes) ≡ false
unfolding has_prefix to_hex hex_digit
no_prefix [] = refl
no_prefix (byte ∷ bytes) = ground arith

hex_pairs-to_hex :
    (bytes : List ℕ) (i : ℕ) → All IsByte bytes → hex_pairs i (to_hex bytes) ≡ ok bytes
unfolding hex_pairs to_hex
hex_pairs-to_hex [] i h = refl
hex_pairs-to_hex (byte ∷ bytes) i (p, h) =
    rw
      (
        hex_nibble-hex_digit (byte / 16) (omega arith),
        hex_nibble-hex_digit (byte % 16) (omega arith),
        hex_pairs-to_hex bytes (i + 2) h,
      )
      (ap (λ (b : ℕ). ok (b ∷ bytes)) (omega arith))

length-to_hex : (bytes : List ℕ) → length (to_hex bytes) ≡ length bytes * 2
unfolding to_hex
length-to_hex [] = refl
length-to_hex (byte ∷ bytes) = omega (arith, length-to_hex bytes)

lossy_step :
    (a b : ℕ) (rest : List ℕ) (hi lo : ℕ)
    → hex_nibble a ≡ some hi
    → hex_nibble b ≡ some lo
    → from_hex_lossy (a ∷ b ∷ rest) ≡ (hi * 16 + lo) ∷ from_hex_lossy rest
unfolding from_hex_lossy
lossy_step a b rest hi lo h k = rw (h, k, from_hex_lossy)

-- `hex_pairs` and `from_hex_lossy` agree on what the first accepts.
lossy-hex_pairs :
    (i : ℕ) (s : List ℕ) {bytes : List ℕ}
    → hex_pairs i s ≡ ok bytes
    → (from_hex_lossy s ≡ bytes) × All IsByte bytes
unfolding hex_pairs from_hex_lossy
lossy-hex_pairs i [] {bytes} h =
    subst (λ (bs : List ℕ). ([] ≡ bs) × All IsByte bs) (ok_eq h) (refl, tt)
lossy-hex_pairs i (a ∷ []) {bytes} h =
    subst (λ (bs : List ℕ). ([] ≡ bs) × All IsByte bs) (ok_eq h) (refl, tt)
lossy-hex_pairs i (a ∷ b ∷ rest) {bytes} h = elim (Option-cases (hex_nibble a)) [
  | inl bad ↦ let k = rw bad at h in cc
  | inr (hi, first) ↦
      let k = rw first at h in
      elim (Option-cases (hex_nibble b)) [
        | inl bad ↦ let k' = rw bad at k in cc
        | inr (lo, second) ↦
            let k' = rw second at k in
            elim (Result-cases {A = List ℕ} (hex_pairs (i + 2) rest)) [
              | inr (e, stop) ↦ let k'' = rw stop at k' in cc
              | inl (more, others) ↦
                  let e : ◌≡◌ {A = Result HexDecodeError (List ℕ)} (ok ((hi * 16 + lo) ∷ more))
                      (ok bytes) =
                    rw others at k' in
                  let (same, all) = lossy-hex_pairs (i + 2) rest others in
                  subst (λ (bs : List ℕ). (from_hex_lossy (a ∷ b ∷ rest) ≡ bs) × All IsByte bs)
                    (ok_eq e)
                    (
                      lossy_step a b rest hi lo first second
                          ∙ ap (λ (bs : List ℕ). (hi * 16 + lo) ∷ bs) same,
                      (omega (arith, hex_nibble-lt a first, hex_nibble-lt b second), all),
                    )
            ]
      ]
]

-- The lower-case text of any bytes is read back by `from_hex_exact` for their number, and by
-- `from_hex_lossy`.
pub from_hex-to_hex :
    (bytes : List ℕ)
    → All IsByte bytes
    → (from_hex_exact (length bytes) (to_hex bytes) ≡ ok bytes)
      × (from_hex_lossy (to_hex bytes) ≡ bytes)
unfolding from_hex_exact
from_hex-to_hex bytes h =
    let size : length (to_hex bytes) ≡ length bytes * 2 = length-to_hex bytes in
    let exact : from_hex_exact (length bytes) (to_hex bytes) ≡ ok bytes =
      rw
        (
          eq→== (length (to_hex bytes) % 2) 0 (omega arith),
          no_prefix bytes,
          eq→== (length (to_hex bytes)) (length bytes * 2) size,
        )
        (hex_pairs-to_hex bytes 0 h) in
    (exact, (lossy-hex_pairs 0 (to_hex bytes) (hex_pairs-to_hex bytes 0 h)).0)
