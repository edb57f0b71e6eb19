-- ===== src/Sharded/Notes.antt =====
-- The operations of `ShardedNotesTree` on owned notes.
use rs_core.Prelude.{
  ℕ, ◌/◌, ◌%◌, ◌^◌, Bool, true, false, not, ◌&&◌, List, ◌++◌, Option, none, some, ltb, ◌==◌,
  if◌then◌else◌, length, get_elem?,
}
use rs_core.Outcome.{
  Outcome, ok, err, ◌>>=◌, ◌>>◌, ensure, ok_or, leaf_index_out_of_range, duplicate_owned_leaf,
  owned_leaf_mismatch, note_not_marked, note_already_completed, shard_not_completed,
  invalid_sibling_count, witness_root_mismatch,
}
use rs_core.Assoc.{find, insert, remove, find_at, insert_at, remove_at}
use rs_core.Field.{Fr, same}
use rs_core.Geometry.{tree_capacity}
use rs_core.Proof.{InclusionProof, hash_path}
use rs_core.Imt
use rs_core.Sharded.{ShardedNotesTree, leaf_count, is_note, free_for, add, discard, root}

module _ {F : Type 0} ⦃fr : Fr F⦄ where
  -- The two insertions of `mark_owned` and `adopt_frozen_witness`, and the dirty mark.
  unfoldable pub track : ShardedNotesTree F → F → ℕ → Option (List F) → ShardedNotesTree F
  track t note_id leaf_index path = record t {
    owned_leaves = insert_at t.owned_leaves leaf_index note_id;
    owned_notes =
        insert fr.eq t.owned_notes note_id
          (record { note_id = note_id; leaf_index = leaf_index; within_shard_siblings = path });
    dirty_owned_notes = add t.dirty_owned_notes note_id;
  }

  -- A note that is tracked at that leaf already is left alone.
  unfoldable pub mark_owned : ShardedNotesTree F → F → ℕ → Outcome (ShardedNotesTree F)
  mark_owned t note_id leaf_index = do
    capacity ← tree_capacity t.depth
    ensure (ltb leaf_index capacity) (leaf_index_out_of_range leaf_index capacity)
    let shard_index = leaf_index / 2 ^ t.shard_height
    ensure (not (ltb shard_index (length t.completed_roots))) (note_already_completed shard_index)
    elim (find fr.eq t.owned_notes note_id) [
      | some existing ↦
          if existing.leaf_index == leaf_index
          then ok t
          else err (duplicate_owned_leaf existing.leaf_index)
      | none ↦ do
        ensure (free_for (find_at t.owned_leaves leaf_index) note_id)
            (duplicate_owned_leaf leaf_index)
        ensure
            (not (
              ltb leaf_index (leaf_count t)
              && not (is_note (Imt.leaf t.live (leaf_index % t.shard_size)) note_id)))
            (owned_leaf_mismatch leaf_index)
        ok (track t note_id leaf_index none)
    ]

  -- Whether the note was tracked.
  unfoldable pub unmark_owned : ShardedNotesTree F → F → ShardedNotesTree F × Bool
  unmark_owned t note_id =
      let clean = record t { dirty_owned_notes = discard t.dirty_owned_notes note_id } in
      elim (find fr.eq t.owned_notes note_id) [
        | some owned ↦ (
          record clean {
            owned_notes = remove fr.eq t.owned_notes note_id;
            owned_leaves = remove_at t.owned_leaves owned.leaf_index;
          },
          true,
        )
        | none ↦ (clean, false)
      ]

  unfoldable pub verify_frozen_path : ShardedNotesTree F → F → ℕ → List F → Outcome (Unit {0})
  verify_frozen_path t note_id leaf_index siblings = do
    ensure (length siblings == t.shard_height)
        (invalid_sibling_count t.shard_height (length siblings))
    let shard_index = leaf_index / 2 ^ t.shard_height
    root ← ok_or (get_elem? t.completed_roots shard_index) (shard_not_completed shard_index)
    ensure (same (hash_path note_id (leaf_index % t.shard_size) siblings).0 root)
        (witness_root_mismatch shard_index)

  unfoldable pub adopt_frozen_witness :
      ShardedNotesTree F → F → ℕ → List F → Outcome (ShardedNotesTree F)
  adopt_frozen_witness t note_id leaf_index siblings = do
    let shard_index = leaf_index / 2 ^ t.shard_height
    ensure (ltb shard_index (length t.completed_roots)) (shard_not_completed shard_index)
    elim (find fr.eq t.owned_notes note_id) [
      | some existing ↦
          ensure (existing.leaf_index == leaf_index) (duplicate_owned_leaf existing.leaf_index)
      | none ↦ ok tt
    ]
    ensure (free_for (find_at t.owned_leaves leaf_index) note_id) (duplicate_owned_leaf leaf_index)
    verify_frozen_path t note_id leaf_index siblings
    ok (track t note_id leaf_index (some siblings))

  -- The path within the shard: the frozen one, or that of the live leaf.
  unfoldable pub within_siblings : ShardedNotesTree F → F → ℕ → Option (List F) → Outcome (List F)
  within_siblings t note_id leaf_index (some frozen) = ok frozen
  within_siblings t note_id leaf_index none = do
    let within_index = leaf_index % t.shard_size
    ensure
        ((leaf_index / 2 ^ t.shard_height == length t.completed_roots)
          && is_note (Imt.leaf t.live within_index) note_id)
        (owned_leaf_mismatch leaf_index)
    p ← Imt.create_proof t.live within_index
    ok p.siblings

  unfoldable pub witness : ShardedNotesTree F → F → Outcome (InclusionProof F)
  witness t note_id = do
    owned ← ok_or (find fr.eq t.owned_notes note_id) note_not_marked
    siblings ← within_siblings t note_id owned.leaf_index owned.within_shard_siblings
    cap_proof ← Imt.create_proof t.cap (owned.leaf_index / 2 ^ t.shard_height)
    top ← root t
    ok (record {
      leaf = note_id;
      index = owned.leaf_index;
      siblings = siblings ++ cap_proof.siblings;
      root = top;
    })
