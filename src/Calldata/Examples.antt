-- ===== src/Calldata/Examples.antt =====
-- Two words, with a toy hash and the arithmetic of the natural numbers for the evaluation.
use rs_core.Prelude.{ℕ, ◌+◌, ◌*◌, ◌≡◌, List, [], ◌∷◌, ◌++◌, replicate, ◌↔◌, arith}
use rs_core.Result.{ok}
use rs_core.Calldata.{
  FrHash, CalldataBinding, calldata_evaluation, bind_calldata, bind_calldata_packed,
}
use rs_core.Calldata.Evaluation.{RingLaws, terms, calldata_evaluation-terms}
use rs_core.Calldata.Packed.{bind_calldata_packed_iff}
use rs_core.Wire.Packed.{fr_to_be_32_packed}
use rs_core.Toy.{Residue, residue, residue_int, residue_hash, first_or}

instance abbrev number_hash : FrHash ℕ
number_hash = record {
  zero = 0;
  add = λ a b. a + b;
  mul = λ a b. a * b;
  from_u64 = λ n. n;
  from_be_bytes_mod = first_or 1;
  poseidon = first_or 2;
  sha256 = λ bytes. bytes;
  keccak256 = λ bytes. bytes;
}

abbrev number_ring : RingLaws ℕ
number_ring = record {
  one = 1;
  add_comm = λ a b. omega arith;
  mul_assoc = λ a b c. omega arith;
  mul_one = λ a. omega arith;
  zero_mul = λ a. omega arith;
  add_mul = λ a b c. omega arith;
}

calldata_evaluation-terms_example :
    calldata_evaluation (3 ∷ 5 ∷ 7 ∷ []) 10 ≡ terms number_ring 10 0 (3 ∷ 5 ∷ 7 ∷ [])
calldata_evaluation-terms_example = calldata_evaluation-terms number_ring (3 ∷ 5 ∷ 7 ∷ []) 10

abbrev three_words : List ℕ
three_words = 3 ∷ 5 ∷ 7 ∷ []

abbrev two_words : List ℕ
two_words = replicate 31 0 ++ (7 ∷ replicate 31 0) ++ (8 ∷ [])

abbrev binding : CalldataBinding Residue
binding = record { commitment = residue 101; y = residue 7; x = residue 0 }

bind_calldata_packed_iff_example : (bind_calldata_packed two_words ≡ ok binding) ↔ (
    (words : List Residue) × (fr_to_be_32_packed words ≡ two_words)
    × (bind_calldata words ≡ ok binding))
bind_calldata_packed_iff_example = bind_calldata_packed_iff two_words binding (omega arith)
