-- ===== src/Snapshot/Examples.antt =====
-- The snapshot of a tree of depth two with one live leaf, which is an owned note.
use rs_core.Prelude.{ℕ, List, [], ◌∷◌, ◌++◌, ◌≡◌, ◌↔◌, none, replicate, arith}
use rs_core.Outcome.{ok}
use rs_core.Snapshot.Codec.{ShardedTreeSnapshot, encode, decode, snapshot_magic}
use rs_core.Snapshot.Codec.RoundTrip.{decode_iff}
use rs_core.Toy.{Residue, residue, residue_int}

abbrev seven : List ℕ
seven = replicate 31 0 ++ (7 ∷ [])

abbrev one_note : ShardedTreeSnapshot Residue
one_note = record {
  depth = 2;
  shard_height = 1;
  completed_roots = [];
  live_leaves = residue 7 ∷ [];
  owned_notes = record { note_id = residue 7; leaf_index = 0; within_shard_siblings = none } ∷ [];
}

abbrev one_note_bytes : List ℕ
one_note_bytes =
    snapshot_magic
    ++ (1
        ∷ 2
        ∷ 1
        ∷ 0
        ∷ 0
        ∷ 0
        ∷ 0
        ∷ 0
        ∷ 0
        ∷ 0
        ∷ 0
        ∷ 1
        ∷ 0
        ∷ 0
        ∷ 0
        ∷ 1
        ∷ (seven ++ (seven ++ replicate 8 0)))

decode_iff_example : (decode one_note_bytes ≡ ok one_note) ↔ (encode one_note ≡ ok one_note_bytes)
decode_iff_example = decode_iff one_note_bytes one_note (omega arith) (omega arith)
