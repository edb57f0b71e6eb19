-- ===== src/Encoding/Decimal.antt =====
-- The 78 rounds of the decimal decoder compute the number that the text says.
use rs_core.Prelude.{
  ℕ, zero, suc, ◌+◌, ◌-◌, ◌*◌, ◌/◌, ◌%◌, ◌^◌, ◌≤◌, ◌<◌, ◌≡◌, refl, sym, ap, ap₂, ◌∙◌, Bool, true,
  false, not, ◌&&◌, ◌||◌, List, [], ◌∷◌, ◌++◌, arith, ltb, leb, ◌==◌, if◌then◌else◌, length,
  replicate, Bool-cases, inl, inr, ==→eq, lt→ltb, le→ltb,
}
use rs_core.Result.{ok, err}
use rs_core.Assoc.{All}
use rs_core.Bytes.{IsByte, le_bytes, from_le, from_le-lt, le_bytes-from_le, pow_byte}
use rs_core.Encoding.{
  invalid_decimal, out_of_range, digit, times_ten, decimal_loop, decimal_result,
  try_decimal_bytes_to_le_32,
}

-- A decimal digit of ASCII.
abbrev pub is_digit : ℕ → Bool
is_digit c = leb b'0' c && leb c b'9'

abbrev pub all_digits : List ℕ → Bool
all_digits [] = true
all_digits (c ∷ chars) = is_digit c && all_digits chars

-- The number that digits say, behind the digits of `n`.
unfoldable pub decimal_value : ℕ → List ℕ → ℕ
decimal_value n [] = n
decimal_value n (c ∷ chars) = decimal_value (n * 10 + (c - b'0')) chars

pub digit_lem : (c : ℕ) → is_digit c ≡ true → digit c ≡ c - b'0'
digit_lem c h = ground arith

pub large_digit : (c : ℕ) → c < 256 → ltb 9 (digit c) ≡ not (is_digit c)
large_digit c h = ground arith

small_digit : (c : ℕ) → is_digit c ≡ true → ltb 9 (digit c) ≡ false
small_digit c h = ground arith

pub and_true : (a b : Bool) → (a && b) ≡ true → (a ≡ true) × (b ≡ true)
and_true true b h = (refl, h)
and_true false b h = cc

still_invalid :
    (invalid d rest : Bool)
    → (not invalid && (d && rest)) ≡ false
    → (not (invalid || not d) && rest) ≡ false
still_invalid true d rest h = refl
still_invalid false true rest h = h
still_invalid false false rest h = refl

-- The bytes and the carry out are ten times the bytes and the carry in.
times_ten_lem :
    (bytes : List ℕ) (carry : ℕ)
    → All IsByte bytes
    → carry < 256
    → All IsByte (times_ten bytes carry).0
      × (length (times_ten bytes carry).0 ≡ length bytes)
      × (from_le (times_ten bytes carry).0 + 256 ^ length bytes * (times_ten bytes carry).1
          ≡ from_le bytes * 10 + carry)
unfolding times_ten from_le
times_ten_lem [] carry h k = (tt, refl, omega arith)
times_ten_lem (byte ∷ bytes) carry (p, h) k =
    let sum : ℕ = (carry + byte * 10) % 2 ^ 16 in
    let exact : sum ≡ carry + byte * 10 = omega arith in
    let (all, size, value) = times_ten_lem bytes (sum / 256) h (omega arith) in
    (
      (omega arith, all),
      ap suc size,
      omega (
        arith,
        pow_byte (length bytes),
        ap (λ (p : ℕ). p * (times_ten bytes (sum / 256)).1) (pow_byte (length bytes)),
      ),
    )

-- What the bytes and the overflow flag say of the number so far.
abbrev Says : ℕ → List ℕ → Bool → Type 0
Says v bytes true = 2 ^ 256 ≤ v
Says v bytes false = from_le bytes ≡ v

Says-next :
    (v c : ℕ) (bytes : List ℕ) (overflow : Bool)
    → All IsByte bytes
    → length bytes ≡ 32
    → Says v bytes overflow
    → is_digit c ≡ true
    → Says
        (v * 10 + (c - b'0'))
        (times_ten bytes (digit c)).0
        (overflow || not ((times_ten bytes (digit c)).1 == 0))
Says-next v c bytes true all size says d = omega (arith, says)
Says-next v c bytes false all size says d =
    let low : digit c < 256 = omega arith in
    let (all', size', value) = times_ten_lem bytes (digit c) all low in
    let same : digit c ≡ c - b'0' = digit_lem c d in
    let value' : from_le (times_ten bytes (digit c)).0 + 2 ^ 256 * (times_ten bytes (digit c)).1
        ≡ v * 10 + (c - b'0') =
      ap
        (λ (k : ℕ). from_le (times_ten bytes (digit c)).0 + 256 ^ k * (times_ten bytes (digit c)).1)
        (sym size)
      ∙ value
      ∙ ap₂ (λ (a b : ℕ). a * 10 + b) says same in
    elim (Bool-cases ((times_ten bytes (digit c)).1 == 0)) [
      | inl zero_carry ↦
          rw zero_carry (omega (arith, value', ==→eq ((times_ten bytes (digit c)).1) 0 zero_carry))
      | inr carried ↦ rw carried (ground (arith, value', carried))
    ]

decimal_loop_digits :
    (chars bytes : List ℕ) (overflow : Bool) (v : ℕ)
    → all_digits chars ≡ true
    → All IsByte bytes
    → length bytes ≡ 32
    → Says v bytes overflow
    → decimal_result (decimal_loop chars bytes false overflow) ≡ (
        if ltb (decimal_value v chars) (2 ^ 256)
        then ok (le_bytes 32 (decimal_value v chars))
        else err out_of_range)
unfolding decimal_loop decimal_value decimal_result
decimal_loop_digits [] bytes true v d all size says = rw (le→ltb v (2 ^ 256) says)
decimal_loop_digits [] bytes false v d all size says =
    let below : from_le bytes < 256 ^ length bytes = from_le-lt bytes all in
    let bound : 256 ^ length bytes ≡ 2 ^ 256 = ap (λ (k : ℕ). 256 ^ k) size in
    let below' : v < 2 ^ 256 = omega arith in
    rw (lt→ltb v (2 ^ 256) below')
      (ap ok (sym (le_bytes-from_le bytes all) ∙ ap₂ le_bytes size says))
decimal_loop_digits (c ∷ chars) bytes overflow v d all size says =
    let (first, others) = and_true (is_digit c) (all_digits chars) d in
    let (all', size', _) = times_ten_lem bytes (digit c) all (omega arith) in
    rw (small_digit c first, decimal_loop)
      (decimal_loop_digits chars (times_ten bytes (digit c)).0
        (overflow || not ((times_ten bytes (digit c)).1 == 0)) (v * 10 + (c - b'0')) others all'
        (size' ∙ size) (Says-next v c bytes overflow all size says first))

decimal_loop_invalid :
    (chars bytes : List ℕ) (invalid overflow : Bool)
    → All IsByte chars
    → (not invalid && all_digits chars) ≡ false
    → decimal_result (decimal_loop chars bytes invalid overflow) ≡ err invalid_decimal
unfolding decimal_loop decimal_result
decimal_loop_invalid [] bytes true overflow b h = refl
decimal_loop_invalid [] bytes false overflow b h = cc
decimal_loop_invalid (c ∷ chars) bytes invalid overflow (p, b) h =
    decimal_loop_invalid chars (times_ten bytes (digit c)).0 (invalid || ltb 9 (digit c))
      (overflow || not ((times_ten bytes (digit c)).1 == 0)) b
      (rw (large_digit c p) (still_invalid invalid (is_digit c) (all_digits chars) h))

all_digits-zeros : (n : ℕ) (s : List ℕ) → all_digits (replicate n b'0' ++ s) ≡ all_digits s
all_digits-zeros zero s = refl
all_digits-zeros (suc n) s = all_digits-zeros n s

decimal_value-zeros :
    (n : ℕ) (s : List ℕ) → decimal_value 0 (replicate n b'0' ++ s) ≡ decimal_value 0 s
unfolding decimal_value
decimal_value-zeros zero s = refl
decimal_value-zeros (suc n) s = decimal_value-zeros n s

All-zeros : (n : ℕ) (s : List ℕ) → All IsByte s → All IsByte (replicate n b'0' ++ s)
All-zeros zero s h = h
All-zeros (suc n) s h = (omega arith, All-zeros n s h)

-- On the bytes of a text, `try_decimal_bytes_to_le_32` gives the 32 little-endian bytes of the
-- number that its digits say, when the text is of 1 to 78 digits and the number below `2 ^ 256`.
-- A longer text or a larger number is out of range; no text, or a character that is no digit in a
-- text of at most 78, is invalid.
pub try_decimal_bytes_to_le_32_lem :
    (s : List ℕ)
    → All IsByte s
    → try_decimal_bytes_to_le_32 s ≡ (
        if length s == 0
        then err invalid_decimal
        else if ltb 78 (length s)
        then err out_of_range
        else if not (all_digits s)
        then err invalid_decimal
        else if ltb (decimal_value 0 s) (2 ^ 256)
        then ok (le_bytes 32 (decimal_value 0 s))
        else err out_of_range)
unfolding try_decimal_bytes_to_le_32
try_decimal_bytes_to_le_32_lem s b = elim (Bool-cases (length s == 0)) [
  | inl empty ↦ rw empty
  | inr some_text ↦ rw some_text (elim (Bool-cases (ltb 78 (length s))) [
    | inl long ↦ rw long
    | inr short ↦ rw short (elim (Bool-cases (all_digits s)) [
      | inl digits ↦ rw digits (
          decimal_loop_digits (replicate (78 - length s) b'0' ++ s) (replicate 32 0) false 0
            (all_digits-zeros (78 - length s) s ∙ digits) (omega arith) refl
            (unfold from_le in refl)
          ∙ rw (decimal_value-zeros (78 - length s) s))
      | inr other ↦ rw other (
          decimal_loop_invalid (replicate (78 - length s) b'0' ++ s) (replicate 32 0) false false
            (All-zeros (78 - length s) s b) (all_digits-zeros (78 - length s) s ∙ other))
    ])
  ])
]
