-- ===== src/Wire/Examples.antt =====
-- Field elements as bytes: two elements of 32 bytes each.
use rs_core.Prelude.{ℕ, List, [], ◌∷◌, ◌++◌, ◌≡◌, ◌↔◌, replicate, arith}
use rs_core.Result.{ok}
use rs_core.Wire.Packed.{fr_to_be_32_packed, fr_from_be_32_packed, fr_from_be_32_packed_iff}
use rs_core.Toy.{Residue, residue, residue_int}

abbrev two : List Residue
two = residue 7 ∷ residue 300 ∷ []

abbrev two_bytes : List ℕ
two_bytes = replicate 31 0 ++ (7 ∷ replicate 30 0) ++ (1 ∷ 44 ∷ [])

fr_from_be_32_packed_iff_example :
    (fr_from_be_32_packed two_bytes ≡ ok two) ↔ (fr_to_be_32_packed two ≡ two_bytes)
fr_from_be_32_packed_iff_example = fr_from_be_32_packed_iff two_bytes two (omega arith)
