-- ===== src/Encoding/Examples.antt =====
-- The texts `300` and `012f`, and texts that are refused.
use rs_core.Prelude.{ℕ, ◌^◌, ◌≡◌, ◌↔◌, not, ltb, ◌==◌, if◌then◌else◌, length, List, [], ◌∷◌, arith}
use rs_core.Result.{ok, err}
use rs_core.Bytes.{le_bytes}
use rs_core.Encoding.{
  invalid_decimal, out_of_range, try_decimal_bytes_to_le_32, from_hex_exact, from_hex_lossy,
}
use rs_core.Encoding.Decimal.{all_digits, decimal_value, try_decimal_bytes_to_le_32_lem}
use rs_core.Encoding.Canonical.{IsCanonical, try_from_dec, try_from_dec_iff}
use rs_core.Encoding.Hex.{to_hex, from_hex-to_hex}
use rs_core.Toy.{residue, residue_int}

abbrev three_hundred : List ℕ
three_hundred = b'3' ∷ b'0' ∷ b'0' ∷ []

try_decimal_bytes_to_le_32_lem_example : try_decimal_bytes_to_le_32 three_hundred ≡ (
    if length three_hundred == 0
    then err invalid_decimal
    else if ltb 78 (length three_hundred)
    then err out_of_range
    else if not (all_digits three_hundred)
    then err invalid_decimal
    else if ltb (decimal_value 0 three_hundred) (2 ^ 256)
    then ok (le_bytes 32 (decimal_value 0 three_hundred))
    else err out_of_range)
try_decimal_bytes_to_le_32_lem_example = try_decimal_bytes_to_le_32_lem three_hundred (omega arith)

try_from_dec_iff_example : (try_from_dec three_hundred ≡ ok (residue 300)) ↔ (
    IsCanonical three_hundred × (decimal_value 0 three_hundred ≡ residue_int.to_int (residue 300)))
try_from_dec_iff_example = try_from_dec_iff three_hundred (residue 300) (omega arith)

from_hex-to_hex_example :
    (from_hex_exact 2 (to_hex (1 ∷ 47 ∷ [])) ≡ ok (1 ∷ 47 ∷ []))
    × (from_hex_lossy (to_hex (1 ∷ 47 ∷ [])) ≡ 1 ∷ 47 ∷ [])
from_hex-to_hex_example = from_hex-to_hex (1 ∷ 47 ∷ []) (omega arith)
