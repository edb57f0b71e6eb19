-- ===== src/Calldata/Chunks.antt =====
-- `calldata_commitment` hashes the words fifteen at a time.
use rs_core.Prelude.{◌≤◌, ◌<◌, ◌≡◌, List, [], ◌∷◌, ◌++◌, length}
use rs_core.Calldata.{FrHash, words_per_hash, hash_inputs}

-- The cut of a list into runs of fifteen, the last one shorter if need be.
abbrev pub IsChunks : {F : Type 0} → List F → List (List F) → Type 0
IsChunks words [] = words ≡ []
IsChunks {F} words (chunk ∷ chunks) =
    (rest : List F) × (words ≡ chunk ++ rest)
    × (0 < length chunk)
    × (length chunk ≤ words_per_hash)
    × ((0 < length rest) → length chunk ≡ words_per_hash)
    × IsChunks rest chunks

module _ {F : Type 0} ⦃hash : FrHash F⦄ where
  unfoldable pub absorb_chunks : F → List (List F) → F
  absorb_chunks state [] = state
  absorb_chunks state (chunk ∷ chunks) =
      absorb_chunks (hash.poseidon (hash_inputs state chunk)) chunks
