-- ===== src/Sharded/Restore.antt =====
-- Storing and restoring a sharded tree: `from_snapshot`, `from_parts`, `snapshot`, the snapshot's
-- bytes, and the lists of owned notes that storage asks for. The loop over the notes of a snapshot
-- recurs on them.
pub mod Lists
pub mod Start
pub mod Complete
pub mod Bytes
pub mod Sound
mod Examples
use rs_core.Prelude.{
  ℕ, suc, ◌/◌, ◌%◌, ◌^◌, Bool, true, false, not, ◌&&◌, ◌||◌, List, [], ◌∷◌, Option, none, some, ltb,
  leb, ◌==◌, if◌then◌else◌, length,
}
use rs_core.Outcome.{
  Outcome, ok, err, ◌>>=◌, ◌>>◌, ensure, invalid_snapshot, owned_leaf_mismatch, too_many_roots,
  live_not_partial, live_over_capacity, owned_over_capacity, duplicate_owned, no_frozen_path,
  early_frozen_path,
}
use rs_core.Assoc.{find, insert, find_at, insert_at}
use rs_core.Field.{Fr}
use rs_core.Wire.{FrInt}
use rs_core.Geometry.{tree_capacity}
use rs_core.Imt
use rs_core.Snapshot.Codec.{ShardedTreeSnapshot, encode, decode}
use rs_core.Sharded.{ShardedNotesTree, OwnedNoteWitness, new, leaf_count, is_some, is_note}
use rs_core.Sharded.Notes.{verify_frozen_path}
use rs_core.Sharded.Rewind.{rebuild_cap}

module _ {F : Type 0} ⦃fr : Fr F⦄ where
  -- The check of a note against its shard: completed shards ask for a path that leads to their
  -- root, the others for no path, and for the note at its place if that has a leaf.
  pub check_owned : ShardedNotesTree F → OwnedNoteWitness F → Outcome (Unit {0})
  check_owned t owned =
      if ltb (owned.leaf_index / 2 ^ t.shard_height) (length t.completed_roots)
      then elim owned.within_shard_siblings [
        | none ↦ err (invalid_snapshot (no_frozen_path owned.leaf_index))
        | some siblings ↦ verify_frozen_path t owned.note_id owned.leaf_index siblings
      ]
      else (do
        ensure (not (is_some owned.within_shard_siblings))
            (invalid_snapshot (early_frozen_path owned.leaf_index))
        ensure
            (not (
              ltb owned.leaf_index (leaf_count t)
              && not (is_note (Imt.leaf t.live (owned.leaf_index % t.shard_size)) owned.note_id)))
            (owned_leaf_mismatch owned.leaf_index))

  pub restore_note : ℕ → ShardedNotesTree F → OwnedNoteWitness F → Outcome (ShardedNotesTree F)
  unfolding check_owned
  restore_note capacity t owned = do
    ensure (ltb owned.leaf_index capacity)
        (invalid_snapshot (owned_over_capacity owned.leaf_index capacity))
    ensure
        (not (
          is_some (find fr.eq t.owned_notes owned.note_id)
          || is_some (find_at t.owned_leaves owned.leaf_index)))
        (invalid_snapshot (duplicate_owned owned.leaf_index))
    check_owned t owned
    ok (record t {
      owned_leaves = insert_at t.owned_leaves owned.leaf_index owned.note_id;
      owned_notes = insert fr.eq t.owned_notes owned.note_id owned;
    })

  pub restore_notes :
      ℕ → ShardedNotesTree F → List (OwnedNoteWitness F) → Outcome (ShardedNotesTree F)
  unfolding restore_note
  restore_notes capacity t [] = ok t
  restore_notes capacity t (owned ∷ notes) = do
    t' ← restore_note capacity t owned
    restore_notes capacity t' notes

  pub from_snapshot : ShardedTreeSnapshot F → Outcome (ShardedNotesTree F)
  unfolding restore_notes
  from_snapshot s = do
    tree ← new s.depth s.shard_height
    max_shards ← tree_capacity tree.cap_depth
    ensure (not (ltb max_shards (length s.completed_roots))) (invalid_snapshot too_many_roots)
    ensure (not (leb tree.shard_size (length s.live_leaves))) (invalid_snapshot live_not_partial)
    ensure (not ((length s.completed_roots == max_shards) && not (Imt.is_empty s.live_leaves)))
        (invalid_snapshot live_over_capacity)
    live ← Imt.from_leaves tree.shard_height s.live_leaves
    t ← rebuild_cap (record tree {
      completed_roots = s.completed_roots;
      live_leaves = s.live_leaves;
      live = live;
    })
    capacity ← tree_capacity t.depth
    restore_notes capacity t s.owned_notes

  pub from_parts : ℕ → ℕ → List F → List F → Outcome (ShardedNotesTree F)
  unfolding from_snapshot
  from_parts depth shard_height completed_roots live_leaves = from_snapshot (record {
    depth = depth;
    shard_height = shard_height;
    completed_roots = completed_roots;
    live_leaves = live_leaves;
    owned_notes = [];
  })

  -- `sort_by_key(|owned| owned.leaf_index)`
  pub place_note : OwnedNoteWitness F → List (OwnedNoteWitness F) → List (OwnedNoteWitness F)
  place_note owned [] = owned ∷ []
  place_note owned (next ∷ notes) =
      if leb owned.leaf_index next.leaf_index
      then owned ∷ next ∷ notes
      else next ∷ place_note owned notes

  pub sort_by_leaf : List (OwnedNoteWitness F) → List (OwnedNoteWitness F)
  unfolding place_note
  sort_by_leaf [] = []
  sort_by_leaf (owned ∷ notes) = place_note owned (sort_by_leaf notes)

  -- `.values().cloned().collect()`
  pub values : List (F × OwnedNoteWitness F) → List (OwnedNoteWitness F)
  values [] = []
  values ((_, owned) ∷ notes) = owned ∷ values notes

  pub owned_notes : ShardedNotesTree F → List (OwnedNoteWitness F)
  unfolding sort_by_leaf values
  owned_notes t = sort_by_leaf (values t.owned_notes)

  -- `filter_map(|note_id| self.owned_notes.get(&note_id).cloned())`
  pub find_each : List (F × OwnedNoteWitness F) → List F → List (OwnedNoteWitness F)
  find_each notes [] = []
  find_each notes (id ∷ ids) = elim (find fr.eq notes id) [
    | some owned ↦ owned ∷ find_each notes ids
    | none ↦ find_each notes ids
  ]

  pub drain_dirty_owned_notes : ShardedNotesTree F → ShardedNotesTree F × List (OwnedNoteWitness F)
  unfolding sort_by_leaf find_each
  drain_dirty_owned_notes t = (
    record t { dirty_owned_notes = [] },
    sort_by_leaf (find_each t.owned_notes t.dirty_owned_notes),
  )

  pub snapshot : ShardedNotesTree F → ShardedTreeSnapshot F
  unfolding owned_notes
  snapshot t = record {
    depth = t.depth;
    shard_height = t.shard_height;
    completed_roots = t.completed_roots;
    live_leaves = t.live_leaves;
    owned_notes = owned_notes t;
  }

module _ {F : Type 0} ⦃fr : Fr F⦄ ⦃int : FrInt F⦄ where
  pub encode_snapshot : ShardedNotesTree F → Outcome (List ℕ)
  unfolding snapshot
  encode_snapshot t = encode (snapshot t)

  pub from_snapshot_bytes : List ℕ → Outcome (ShardedNotesTree F)
  unfolding from_snapshot
  from_snapshot_bytes bytes = do s ← decode bytes; from_snapshot s
