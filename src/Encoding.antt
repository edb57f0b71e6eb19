-- ===== src/Encoding.antt =====
-- The text encodings of crates/core/src/encoding.rs: decimal and hexadecimal, over the bytes of the
-- text. A byte's `wrapping_sub` is a remainder by 256, a `u16` sum one by `2 ^ 16`. The flags that
-- the source joins with `|=` and only tests for zero are Booleans.
pub mod Decimal
mod Examples
pub mod Canonical
pub mod Hex
use rs_core.Prelude.{
  ℕ, zero, suc, ◌+◌, ◌-◌, ◌*◌, ◌/◌, ◌%◌, ◌^◌, Bool, true, false, not, ◌&&◌, ◌||◌, List, [], ◌∷◌,
  ◌++◌, Option, none, some, ltb, leb, ◌==◌, if◌then◌else◌, length, replicate,
}
use rs_core.Result.{Result, ok, err, ◌>>=◌, ◌>>◌, ensure, ok_or}

pub data DecimalU256Error : Type 0 where
  invalid_decimal out_of_range : DecimalU256Error

-- `character.wrapping_sub(b'0')`
abbrev pub digit : ℕ → ℕ
digit c = (c + 256 - b'0') % 256

-- The inner loop: the bytes times ten, and the carry added.
pub times_ten : List ℕ → ℕ → List ℕ × ℕ
times_ten [] carry = ([], carry)
times_ten (byte ∷ bytes) carry =
    let sum = (carry + byte * 10) % 2 ^ 16 in
    let (bytes', carry') = times_ten bytes (sum / 256) in ((sum % 256) ∷ bytes', carry')

-- The outer loop, with the flags `invalid` and `overflow`.
pub decimal_loop : List ℕ → List ℕ → Bool → Bool → List ℕ × Bool × Bool
unfolding times_ten
decimal_loop [] bytes invalid overflow = (bytes, invalid, overflow)
decimal_loop (c ∷ chars) bytes invalid overflow =
    let step = times_ten bytes (digit c) in
    decimal_loop chars step.0 (invalid || ltb 9 (digit c)) (overflow || not (step.1 == 0))

-- What is made of the flags and the bytes.
pub decimal_result : List ℕ × Bool × Bool → Result DecimalU256Error (List ℕ)
decimal_result (bytes, invalid, overflow) =
    if invalid then err invalid_decimal else if overflow then err out_of_range else ok bytes

unfoldable pub try_decimal_bytes_to_le_32 : List ℕ → Result DecimalU256Error (List ℕ)
unfolding decimal_loop decimal_result
try_decimal_bytes_to_le_32 s =
    if length s == 0
    then err invalid_decimal
    else if ltb 78 (length s)
    then err out_of_range
    else decimal_result
        (decimal_loop (replicate (78 - length s) b'0' ++ s) (replicate 32 0) false false)

pub data HexDecodeError : Type 0 where
  odd_length : ℕ → HexDecodeError
  invalid_character : ℕ → ℕ → HexDecodeError
  wrong_length : ℕ → ℕ → HexDecodeError

pub hex_nibble : ℕ → Option ℕ
hex_nibble b =
    if leb b'0' b && leb b b'9'
    then some (b - b'0')
    else if leb b'a' b && leb b b'f'
    then some (b - b'a' + 10)
    else if leb b'A' b && leb b b'F'
    then some (b - b'A' + 10)
    else none

-- `while i + 1 < bytes.len()`
unfoldable pub from_hex_lossy : List ℕ → List ℕ
from_hex_lossy [] = []
from_hex_lossy (a ∷ []) = []
from_hex_lossy (a ∷ b ∷ rest) =
    let others = from_hex_lossy rest in
    elim (hex_nibble a) [
      | none ↦ []
      | some hi ↦ elim (hex_nibble b) [ none ↦ [] | some lo ↦ (hi * 16 + lo) ∷ others ]
    ]

-- `s.starts_with("0x") || s.starts_with("0X")`
pub has_prefix : List ℕ → Bool
has_prefix [] = false
has_prefix (a ∷ []) = false
has_prefix (a ∷ b ∷ rest) = (a == b'0') && ((b == b'x') || (b == b'X'))

-- The loop over `as_chunks::<2>()`; `i` is the index of the next character.
pub hex_pairs : ℕ → List ℕ → Result HexDecodeError (List ℕ)
hex_pairs i [] = ok []
hex_pairs i (a ∷ []) = ok []
hex_pairs i (a ∷ b ∷ rest) = do
  hi ← ok_or (hex_nibble a) (invalid_character a i)
  lo ← ok_or (hex_nibble b) (invalid_character b (i + 1))
  bytes ← hex_pairs (i + 2) rest
  ok ((hi * 16 + lo) ∷ bytes)

unfoldable pub from_hex_exact : ℕ → List ℕ → Result HexDecodeError (List ℕ)
unfolding has_prefix hex_pairs
from_hex_exact n s = do
  ensure (length s % 2 == 0) (odd_length (length s))
  ensure (not (has_prefix s)) (invalid_character b'x' 1)
  ensure (length s == n * 2) (wrong_length n (length s / 2))
  hex_pairs 0 s
