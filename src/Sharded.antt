-- ===== src/Sharded.antt =====
-- `ShardedNotesTree` of crates/core/src/imt.rs: completed shards kept as roots, one live shard kept
-- whole, a cap tree over the roots, and the witnesses of owned notes.
-- `leaf_index & (shard_size - 1)` is written as a remainder: `shard_size` is a power of two. An error
-- gives no new state. One that comes after a change, from `sync_live_root` or `roll_over`, comes on
-- no state that stands for a list of leaves, so it costs the model no behaviour of such a state.
pub mod Canonical
pub mod Append
pub mod Owned
pub mod Notes
pub mod Holds
pub mod Laws
pub mod Witness
pub mod Reads
pub mod Marks
pub mod Adopt
pub mod Glue
pub mod Stateless
pub mod Rewind
pub mod Restore
pub mod Flat
pub mod Batch
mod Examples
use rs_core.Prelude.{
  ℕ, zero, suc, ◌+◌, ◌-◌, ◌*◌, ◌/◌, ◌%◌, ◌^◌, min, Bool, true, false, not, ◌&&◌, ◌||◌, List, [],
  ◌∷◌, ◌++◌, Option, none, some, ltb, leb, ◌==◌, if◌then◌else◌, length, get_elem?, take, drop,
}
use rs_core.Outcome.{
  Outcome, ok, err, panic, ◌>>=◌, ◌>>◌, ensure, expect, index, ok_or, TreeError, invalid_geometry,
  tree_full, leaf_index_out_of_range, duplicate_owned_leaf, owned_leaf_mismatch, note_not_marked,
  note_already_completed, shard_not_completed, invalid_sibling_count, witness_root_mismatch,
  invalid_snapshot, cap_live_mismatch, rewind_before_completed,
}
use rs_core.Assoc.{find, insert, remove, find_at, insert_at, remove_at, values_from}
use rs_core.Field.{Fr, same}
use rs_core.Geometry.{tree_capacity, zero_roots}
use rs_core.Proof.{InclusionProof, hash_path}
use rs_core.Imt
use rs_core.Imt.{Imt, is_empty}

pub record OwnedNoteWitness (F : Type 0) : Type 0 where
  pub note_id : F
  pub leaf_index : ℕ
  pub within_shard_siblings : Option (List F)

pub record ShardedNotesTree (F : Type 0) : Type 0 where
  pub depth : ℕ
  pub shard_height : ℕ
  pub shard_size : ℕ
  pub cap_depth : ℕ
  pub completed_roots : List F
  pub live : Imt F
  pub live_leaves : List F
  pub cap : Imt F
  pub owned_notes : List (F × OwnedNoteWitness F)
  pub owned_leaves : List (ℕ × F)
  pub dirty_owned_notes : List F

abbrev pub is_some {ℓ} : {A : Type ℓ} → Option A → Bool
is_some none = false
is_some (some a) = true

module _ {F : Type 0} where
  pub leaf_count : ShardedNotesTree F → ℕ
  leaf_count t = length t.completed_roots * t.shard_size + length t.live_leaves

  pub completed_shard_root : ShardedNotesTree F → ℕ → Outcome F
  completed_shard_root t i = ok_or (get_elem? t.completed_roots i) (shard_not_completed i)

  pub ensure_room : ShardedNotesTree F → ℕ → Outcome (Unit {0})
  unfolding leaf_count
  ensure_room t additional = do
    capacity ← tree_capacity t.depth
    ensure (not (ltb (capacity - leaf_count t) additional)) (tree_full t.depth)

module _ {F : Type 0} ⦃fr : Fr F⦄ where
  -- `leaf == Some(note_id)`
  abbrev pub is_note : Option F → F → Bool
  is_note none id = false
  is_note (some leaf) id = same leaf id

  -- `.is_none_or(|id| *id == note_id)`
  abbrev pub free_for : Option F → F → Bool
  free_for none id = true
  free_for (some other) id = same other id

  -- `HashSet::insert` and `HashSet::remove`
  abbrev pub add : List F → F → List F
  add [] x = x ∷ []
  add (y ∷ set) x = if same x y then y ∷ set else y ∷ add set x

  abbrev pub discard : List F → F → List F
  discard [] x = []
  discard (y ∷ set) x = if same x y then discard set x else y ∷ discard set x

  pub new : ℕ → ℕ → Outcome (ShardedNotesTree F)
  new depth shard_height = do
    ensure (not (shard_height == 0 || leb depth shard_height)) (invalid_geometry depth shard_height)
    shard_size ← tree_capacity shard_height
    let cap_depth = depth - shard_height
    _ ← tree_capacity depth
    live ← Imt.new shard_height
    cap_zero ← index (zero_roots depth) shard_height
    cap ← Imt.new_with_zero cap_depth cap_zero
    ok (record {
      depth = depth;
      shard_height = shard_height;
      shard_size = shard_size;
      cap_depth = cap_depth;
      completed_roots = [];
      live = live;
      live_leaves = [];
      cap = cap;
      owned_notes = [];
      owned_leaves = [];
      dirty_owned_notes = [];
    })

  pub validate_incoming_owned_note : ShardedNotesTree F → ℕ → F → Outcome (Unit {0})
  validate_incoming_owned_note t leaf_index note_id =
      ensure (free_for (find_at t.owned_leaves leaf_index) note_id) (owned_leaf_mismatch leaf_index)

  pub sync_live_root : ShardedNotesTree F → Outcome (ShardedNotesTree F)
  sync_live_root t = if is_empty t.live_leaves then ok t else do
    let shard_index = length t.completed_roots
    root ← Imt.root t.live
    cap ←
        (if Imt.leaf_count t.cap == shard_index
          then Imt.insert t.cap root
          else if Imt.leaf_count t.cap == shard_index + 1
          then Imt.update t.cap shard_index root
          else err (invalid_snapshot cap_live_mismatch))
    ok (record t { cap = cap })

  -- The loop of `roll_over` over the owned notes: those of the shard get their path.
  pub freeze :
      ShardedNotesTree F
      → List (F × OwnedNoteWitness F)
      → List F
      → Outcome (List (F × OwnedNoteWitness F) × List F)
  freeze t [] dirty = ok ([], dirty)
  freeze t ((id, owned) ∷ notes) dirty =
      elim (not (owned.leaf_index / 2 ^ t.shard_height == length t.completed_roots)
        || is_some owned.within_shard_siblings) [
          | true ↦ do (notes', dirty') ← freeze t notes dirty; ok ((id, owned) ∷ notes', dirty')
          | false ↦ do
            let within = owned.leaf_index % t.shard_size
            ensure (is_note (Imt.leaf t.live within) owned.note_id)
                (owned_leaf_mismatch owned.leaf_index)
            p ← Imt.create_proof t.live within
            (notes', dirty') ← freeze t notes (add dirty owned.note_id)
            ok ((id, record owned { within_shard_siblings = some p.siblings }) ∷ notes', dirty')
        ]

  pub roll_over : ShardedNotesTree F → Outcome (ShardedNotesTree F)
  roll_over t = do
    (notes, dirty) ← freeze t t.owned_notes t.dirty_owned_notes
    root ← Imt.root t.live
    live ← Imt.new t.shard_height
    ok (record t {
      completed_roots = t.completed_roots ++ (root ∷ []);
      live = live;
      live_leaves = [];
      owned_notes = notes;
      dirty_owned_notes = dirty;
    })

  -- `sync_live_root`, and `roll_over` of a full shard: the end of `append` and of a round of
  -- `append_many`.
  pub settle : ShardedNotesTree F → Outcome (ShardedNotesTree F)
  unfolding sync_live_root roll_over
  settle t = do
    t' ← sync_live_root t
    if length t'.live_leaves == t'.shard_size then roll_over t' else ok t'

  pub append : ShardedNotesTree F → F → Outcome (ShardedNotesTree F)
  unfolding leaf_count ensure_room validate_incoming_owned_note
  append t note_id = do
    ensure_room t 1
    validate_incoming_owned_note t (leaf_count t) note_id
    live ← Imt.insert t.live note_id
    settle (record t { live = live; live_leaves = t.live_leaves ++ (note_id ∷ []) })

  pub validate_loop : ShardedNotesTree F → ℕ → List F → Outcome (Unit {0})
  unfolding validate_incoming_owned_note
  validate_loop t i [] = ok tt
  validate_loop t i (note_id ∷ note_ids) = do
    validate_incoming_owned_note t i note_id
    validate_loop t (i + 1) note_ids

  pub insert_each : Imt F → List F → Outcome (Imt F)
  insert_each live [] = ok live
  insert_each live (note_id ∷ note_ids) = do
    live' ← Imt.insert live note_id
    insert_each live' note_ids

  -- One round takes at least one note while the live shard has room, so the number of notes is
  -- enough fuel.
  pub append_rounds : (fuel : ℕ) → ShardedNotesTree F → List F → Outcome (ShardedNotesTree F)
  append_rounds fuel t [] = ok t
  append_rounds zero t (note_id ∷ note_ids) = panic
  append_rounds (suc fuel) t (note_id ∷ note_ids) = do
    let remaining = note_id ∷ note_ids
    let count = min (t.shard_size - length t.live_leaves) (length remaining)
    let segment = take count remaining
    let live_leaves = t.live_leaves ++ segment
    live ←
        (if ltb (length t.live_leaves + length segment - 1) (length segment * t.shard_height)
          then Imt.from_leaves t.shard_height live_leaves
          else insert_each t.live segment)
    t' ← settle (record t { live = live; live_leaves = live_leaves })
    append_rounds fuel t' (drop count remaining)

  pub append_many : ShardedNotesTree F → List F → Outcome (ShardedNotesTree F)
  unfolding leaf_count ensure_room
  append_many t note_ids = do
    ensure_room t (length note_ids)
    validate_loop t (leaf_count t) note_ids
    append_rounds (length note_ids) t note_ids

  pub root : ShardedNotesTree F → Outcome F
  root t = Imt.root t.cap
