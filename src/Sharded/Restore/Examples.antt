-- ===== src/Sharded/Restore/Examples.antt =====
-- A sharded tree of depth three with one completed shard and one live leaf, stored and restored.
use rs_core.Prelude.{
  ℕ, ℕ_discrete, ◌^◌, ◌+◌, ◌<◌, ◌≡◌, refl, ◌∙◌, List, [], ◌∷◌, none, some, arith, length,
}
use rs_core.Outcome.{ok}
use rs_core.Assoc.{find, find_at, insert, insert_at}
use rs_core.Merkle.{subtree}
use rs_core.Proof.{hash_path}
use rs_core.Snapshot.Codec.{check_shape, siblings_count}
use rs_core.Geometry.{tree_capacity}
use rs_core.Snapshot.Codec.Layout.{IsSnapshot, body_bytes, snapshot_bytes, length-body_bytes}
use rs_core.Snapshot.Codec.Encode.{encode_lem}
use rs_core.Sharded
use rs_core.Sharded.{ShardedNotesTree, OwnedNoteWitness}
use rs_core.Sharded.Canonical.{sharded_of, tabulate}
use rs_core.Sharded.Owned.{pending}
use rs_core.Sharded.Holds.{Holds}
use rs_core.Sharded.Notes.{verify_frozen_path}
use rs_core.Sharded.Restore.{
  restore_notes, restore_note, check_owned, snapshot, encode_snapshot, from_snapshot_bytes, values,
  owned_notes, sort_by_leaf, place_note,
}
use rs_core.Sharded.Restore.Start.{from_snapshot-stored}
use rs_core.Sharded.Restore.Bytes.{from_snapshot-Holds, from_snapshot_bytes-encode_snapshot}
use rs_core.Toy.{toy_field, three_leaves, Residue, residue, residue_field, residue_int}

abbrev frozen_note : OwnedNoteWitness ℕ
frozen_note = record { note_id = 20; leaf_index = 1; within_shard_siblings = some (10 ∷ []) }

abbrev next_note : OwnedNoteWitness ℕ
next_note = record { note_id = 40; leaf_index = 3; within_shard_siblings = none }

abbrev restored : ShardedNotesTree ℕ
restored =
    sharded_of 3 1 1 (10 ∷ 20 ∷ []) (30 ∷ []) ((20, frozen_note) ∷ (40, next_note) ∷ [])
      ((1, 20) ∷ (3, 40) ∷ []) []

notes_restored :
    restore_notes 8
      (sharded_of 3 1 1 (10 ∷ 20 ∷ []) (30 ∷ []) [] [] [])
      (frozen_note ∷ next_note ∷ [])
    ≡ ok restored
unfolding restore_notes restore_note check_owned sharded_of tabulate subtree verify_frozen_path
    hash_path find find_at insert insert_at ℕ_discrete Sharded.leaf_count
notes_restored = refl

from_snapshot-Holds_example : Holds 3 1 three_leaves restored
from_snapshot-Holds_example =
    from_snapshot-Holds 3 1 1 (10 ∷ 20 ∷ []) (30 ∷ []) (frozen_note ∷ next_note ∷ []) restored
      (omega arith) (omega arith) (omega arith) refl (omega arith) (omega arith)
      (from_snapshot-stored 3 1 1 (10 ∷ 20 ∷ []) (30 ∷ []) (frozen_note ∷ next_note ∷ [])
          (omega arith) (omega arith) (omega arith) refl (omega arith) (omega arith)
        ∙ notes_restored)

abbrev note : OwnedNoteWitness Residue
note = record { note_id = residue 30; leaf_index = 2; within_shard_siblings = none }

abbrev leaves : List Residue
leaves = residue 10 ∷ residue 20 ∷ residue 30 ∷ []

abbrev tree : ShardedNotesTree Residue
tree =
    sharded_of 3 1 1 (residue 10 ∷ residue 20 ∷ []) (residue 30 ∷ []) ((residue 30, note) ∷ [])
      ((2, residue 30) ∷ []) []

tree-Holds : Holds 3 1 leaves tree
unfolding sharded_of find_at
tree-Holds = record {
  constructible = omega arith;
  cut = omega arith;
  q = 1;
  done = residue 10 ∷ residue 20 ∷ [];
  live = residue 30 ∷ [];
  whole = refl;
  count = refl;
  part = omega arith;
  room = omega arith;
  state = refl;
  tracked =
      (record { same_id = refl; indexed = refl; path = pending (omega arith) (λ _. refl) }, tt);
}

tree-IsSnapshot : IsSnapshot (snapshot tree)
unfolding snapshot sharded_of tabulate check_shape tree_capacity owned_notes values sort_by_leaf
    place_note
tree-IsSnapshot = record {
  geometry = refl;
  narrow = omega arith;
  shape = refl;
  roots_fit = omega arith;
  live_fit = omega arith;
  owned_fit = omega arith;
  notes_fit = ((omega arith, tt), tt);
}

tree_small : 20 + length (body_bytes (snapshot tree)) < 2 ^ 64
unfolding snapshot sharded_of tabulate owned_notes values sort_by_leaf place_note siblings_count
tree_small = omega (arith, length-body_bytes (snapshot tree))

tree_encoded : encode_snapshot tree ≡ ok (snapshot_bytes (snapshot tree))
unfolding encode_snapshot
tree_encoded = encode_lem (snapshot tree) tree-IsSnapshot tree_small

from_snapshot_bytes-encode_snapshot_example :
    (t : ShardedNotesTree Residue) × (from_snapshot_bytes (snapshot_bytes (snapshot tree)) ≡ ok t)
    × Holds 3 1 leaves t
    × ((id : Residue)
        → find residue_field.eq t.owned_notes id ≡ find residue_field.eq tree.owned_notes id)
unfolding values sharded_of
from_snapshot_bytes-encode_snapshot_example =
    from_snapshot_bytes-encode_snapshot 3 1 leaves tree (snapshot_bytes (snapshot tree)) tree-Holds
      (omega arith) (omega arith, tt) (tt, tt) tree_encoded
