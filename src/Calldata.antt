-- ===== src/Calldata.antt =====
-- The calldata binding of crates/core/src/calldata.rs. SHA-256, Keccak-256 and the arithmetic of
-- the field are third-party, so parameters; so is the Poseidon hash of sixteen inputs, of which the
-- binding asks nothing but that it is a function.
pub mod Evaluation
pub mod Packed
pub mod Chunks
mod Examples
use rs_core.Prelude.{
  ℕ, zero, suc, ◌+◌, ◌-◌, ◌*◌, ◌/◌, List, [], ◌∷◌, ◌++◌, ltb, if◌then◌else◌, length, take, drop,
  replicate,
}
use rs_core.Result.{Result, ok, err, ◌>>=◌, ◌>>◌, ensure, map_err}
use rs_core.Bytes.{reverse}
use rs_core.Wire.{FrInt, fr_to_be_32}
use rs_core.Wire.Packed.{PackedFieldsError, fr_from_be_32_packed, fr_to_be_32_packed}

pub record FrHash (F : Type 0) : Type 0 where
  pub zero : F
  pub add : F → F → F
  pub mul : F → F → F
  pub from_u64 : ℕ → F
  pub from_be_bytes_mod : List ℕ → F
  pub poseidon : List F → F
  pub sha256 : List ℕ → List ℕ
  pub keccak256 : List ℕ → List ℕ

pub record CalldataBinding (F : Type 0) : Type 0 where
  pub commitment : F
  pub y : F
  pub x : F

pub data CalldataError : Type 0 where
  no_words : CalldataError
  too_many_words : ℕ → CalldataError
  packed_words : PackedFieldsError → CalldataError

abbrev pub words_per_hash : ℕ
words_per_hash = 15

abbrev pub max_words : ℕ
max_words = 8192

-- `b"curvy.calldata.commitment.v1"`
abbrev commitment_tag : List ℕ
commitment_tag =
    b'c' ∷ b'u' ∷ b'r' ∷ b'v' ∷ b'y' ∷ b'.' ∷ b'c' ∷ b'a' ∷ b'l' ∷ b'l' ∷ b'd' ∷ b'a' ∷ b't' ∷ b'a'
    ∷ b'.' ∷ b'c' ∷ b'o' ∷ b'm' ∷ b'm' ∷ b'i' ∷ b't' ∷ b'm' ∷ b'e' ∷ b'n' ∷ b't' ∷ b'.' ∷ b'v'
    ∷ b'1' ∷ []

pub check_word_count : {F : Type 0} → List F → Result CalldataError (Unit {0})
check_word_count [] = err no_words
check_word_count (word ∷ words) =
    if ltb max_words (suc (length words)) then err (too_many_words (suc (length words))) else ok tt

module _ {F : Type 0} ⦃hash : FrHash F⦄ where
  pub public_signals : CalldataBinding F → List F
  public_signals b = b.commitment ∷ b.y ∷ b.x ∷ []

  pub calldata_commitment_domain : F
  calldata_commitment_domain = hash.from_be_bytes_mod (hash.sha256 commitment_tag)

  -- The buffer of one round, which the round overwrites whole: the state, the chunk and zeros.
  pub hash_inputs : F → List F → List F
  hash_inputs state chunk = state ∷ (chunk ++ replicate (words_per_hash - length chunk) hash.zero)

  -- `for chunk in words.chunks(15)`. A chunk has at least one word, so the number of words is
  -- enough fuel; with none left there are no words.
  pub absorb : (fuel : ℕ) → F → List F → F
  unfolding hash_inputs
  absorb zero state words = state
  absorb (suc fuel) state [] = state
  absorb (suc fuel) state (word ∷ words) =
      absorb fuel (hash.poseidon (hash_inputs state (take words_per_hash (word ∷ words))))
        (drop words_per_hash (word ∷ words))

  pub calldata_commitment : List F → Result CalldataError F
  unfolding check_word_count calldata_commitment_domain absorb
  calldata_commitment words = do
    check_word_count words
    ok (
        absorb (length words) (hash.add calldata_commitment_domain (hash.from_u64 (length words)))
          words)

  -- `words.iter().rev().fold(…)`
  pub horner : F → F → List F → F
  horner x acc [] = acc
  horner x acc (word ∷ words) = horner x (hash.add (hash.mul acc x) word) words

  pub calldata_evaluation : List F → F → F
  unfolding horner
  calldata_evaluation words x = horner x hash.zero (reverse words)

module _ {F : Type 0} ⦃int : FrInt F⦄ ⦃hash : FrHash F⦄ where
  -- The bytes that the hasher is fed.
  pub challenge_bytes : List F → F → List ℕ
  challenge_bytes [] commitment = fr_to_be_32 commitment
  challenge_bytes (word ∷ words) commitment = fr_to_be_32 word ++ challenge_bytes words commitment

  pub calldata_challenge : List F → F → Result CalldataError F
  unfolding check_word_count challenge_bytes
  calldata_challenge words commitment = do
    check_word_count words
    ok (hash.from_be_bytes_mod (hash.keccak256 (challenge_bytes words commitment)))

  pub bind_calldata : List F → Result CalldataError (CalldataBinding F)
  unfolding calldata_commitment calldata_challenge calldata_evaluation
  bind_calldata words = do
    commitment ← calldata_commitment words
    x ← calldata_challenge words commitment
    ok (record { commitment = commitment; y = calldata_evaluation words x; x = x })

  -- `words.len().div_ceil(32)`
  pub bind_calldata_packed : List ℕ → Result CalldataError (CalldataBinding F)
  unfolding bind_calldata
  bind_calldata_packed bytes =
      if ltb (max_words * 32) (length bytes)
      then err (too_many_words ((length bytes + 31) / 32))
      else (do words ← map_err packed_words (fr_from_be_32_packed bytes); bind_calldata words)
