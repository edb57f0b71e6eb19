-- ===== src/Frontier.antt =====
-- `NotesFrontier` of crates/core/src/imt.rs: a tree that keeps one node for each level.
-- A loop over levels recurs on the levels left and walks down `frontier` and `zeroes`; a slot that
-- is not there is an index out of bounds, so a panic. An error gives no new state: `append` may
-- have emptied slots by then, but it fails on no frontier that a list of leaves stands behind.
pub mod Canonical
pub mod Append
pub mod Root
pub mod Batch
pub mod Siblings
pub mod Snapshot
mod Examples
use rs_core.Prelude.{
  ℕ, zero, suc, ◌+◌, ◌-◌, ◌/◌, ◌%◌, ◌^◌, Bool, true, false, not, ◌||◌, List, [], ◌∷◌, ◌++◌, Option,
  none, some, ltb, leb, ◌==◌, if◌then◌else◌, length, replicate, unwrap_or,
}
use rs_core.Outcome.{
  Outcome, ok, err, panic, ◌>>=◌, ◌>>◌, ensure, expect, index, ok_or, invalid_geometry, tree_full,
  invalid_snapshot, empty_frontier_level,
}
use rs_core.Field.{Fr}
use rs_core.Geometry.{tree_capacity, zero_roots}

pub record CompletedShard (F : Type 0) : Type 0 where
  pub shard_index : ℕ
  pub root : F

pub record FrontierAppend (F : Type 0) : Type 0 where
  pub leaf_index : ℕ
  pub completed_shard : Option (CompletedShard F)

pub record NotesFrontier (F : Type 0) : Type 0 where
  pub depth : ℕ
  pub shard_height : ℕ
  pub shard_size : ℕ
  pub leaf_count : ℕ
  pub frontier : List (Option F)
  pub zeroes : List F

-- `usize::MAX` stands in for a capacity that does not fit.
capacity_or_max : ℕ → ℕ
capacity_or_max depth = elim (tree_capacity depth) [ ok c ↦ c | _ ↦ 2 ^ 64 - 1 ]

module _ {F : Type 0} where
  -- `leaf_count >> shard_height`
  pub shard_count : NotesFrontier F → ℕ
  shard_count t = t.leaf_count / 2 ^ t.shard_height

  -- The slot of a level whose bit is set, or the error that it is empty.
  pub occupied_slot : ℕ → Option F → Outcome F
  occupied_slot level slot = ok_or slot (invalid_snapshot (empty_frontier_level level))

module _ {F : Type 0} ⦃fr : Fr F⦄ where
  pub new : ℕ → ℕ → Outcome (NotesFrontier F)
  new depth shard_height = do
    ensure (not (shard_height == 0 || leb depth shard_height)) (invalid_geometry depth shard_height)
    shard_size ← tree_capacity shard_height
    _ ← tree_capacity depth
    ok (record {
      depth = depth;
      shard_height = shard_height;
      shard_size = shard_size;
      leaf_count = 0;
      frontier = replicate (depth + 1) none;
      zeroes = zero_roots depth;
    })

  -- `NOTES_TREE_DEPTH` and `NOTES_SHARD_HEIGHT`
  pub production : Outcome (NotesFrontier F)
  production = expect (new 30 14)

  -- `occupied` is `leaf_count >> level`.
  pub root_loop : ℕ → List (Option F) → List F → F → ℕ → Outcome F
  root_loop zero slots zs node occupied = ok node
  root_loop (suc d) (slot ∷ slots) (z ∷ zs) node occupied =
      root_loop d slots zs
        (if occupied % 2 == 1 then fr.poseidon (unwrap_or slot z) node else fr.poseidon node z)
        (occupied / 2)
  root_loop (suc d) [] zs node occupied = panic
  root_loop (suc d) (slot ∷ slots) [] node occupied = panic

  pub root : NotesFrontier F → Outcome F
  root t =
      if t.leaf_count == capacity_or_max t.depth
      then (do slot ← index t.frontier t.depth; z ← index t.zeroes t.depth; ok (unwrap_or slot z))
      else (do z ← index t.zeroes 0; root_loop t.depth t.frontier t.zeroes z t.leaf_count)

  -- `for level in 0..=depth`, with `rounds` levels left. A clear bit of the cursor ends the loop
  -- with the node stored there; a set one takes the slot's node as the left half.
  pub append_loop :
      (rounds : ℕ)
      → List (Option F)
      → ℕ
      → ℕ
      → ℕ
      → ℕ
      → F
      → Option (CompletedShard F)
      → Outcome (List (Option F) × Option (CompletedShard F))
  unfolding occupied_slot
  append_loop zero slots shard_height leaf_index level cursor node shard = ok (slots, shard)
  append_loop (suc rounds) [] shard_height leaf_index level cursor node shard = panic
  append_loop (suc rounds) (slot ∷ slots) shard_height leaf_index level cursor node shard =
      elim (cursor % 2 == 0) [
        | true ↦ ok (some node ∷ slots, shard)
        | false ↦ do
          left ← occupied_slot level slot
          let node' = fr.poseidon left node
          let shard' =
              if level + 1 == shard_height
              then some (record { shard_index = leaf_index / 2 ^ shard_height; root = node' })
              else shard
          (slots', shard'') ←
              append_loop rounds slots shard_height leaf_index (level + 1) (cursor / 2) node' shard'
          ok (none ∷ slots', shard'')
      ]

  pub append : NotesFrontier F → F → Outcome (NotesFrontier F × FrontierAppend F)
  append t leaf = do
    capacity ← tree_capacity t.depth
    ensure (ltb t.leaf_count capacity) (tree_full t.depth)
    (slots, shard) ←
        append_loop (t.depth + 1) t.frontier t.shard_height t.leaf_count 0 t.leaf_count leaf none
    ok (
      record t { leaf_count = t.leaf_count + 1; frontier = slots },
      record { leaf_index = t.leaf_count; completed_shard = shard },
    )

  -- `if let Some(shard) = … { completed.push(shard) }`
  push_shard : Option (CompletedShard F) → List (CompletedShard F) → List (CompletedShard F)
  push_shard none shards = shards
  push_shard (some shard) shards = shard ∷ shards

  pub append_many_loop :
      NotesFrontier F → List F → Outcome (NotesFrontier F × List (CompletedShard F))
  unfolding push_shard
  append_many_loop t [] = ok (t, [])
  append_many_loop t (leaf ∷ leaves) = do
    (t', made) ← append t leaf
    (t'', shards) ← append_many_loop t' leaves
    ok (t'', push_shard made.completed_shard shards)

  pub append_many : NotesFrontier F → List F → Outcome (NotesFrontier F × List (CompletedShard F))
  append_many t leaves = do
    capacity ← tree_capacity t.depth
    ensure (not (ltb (capacity - t.leaf_count) (length leaves))) (tree_full t.depth)
    append_many_loop t leaves

  -- `position` is `leaf_count >> level`; a clear bit reads as `zeroes[level]`.
  pub siblings_loop : (rounds : ℕ) → List (Option F) → List F → ℕ → ℕ → Outcome (List F)
  unfolding occupied_slot
  siblings_loop zero slots zs level position = ok []
  siblings_loop (suc rounds) [] zs level position = panic
  siblings_loop (suc rounds) (slot ∷ slots) [] level position = panic
  siblings_loop (suc rounds) (slot ∷ slots) (z ∷ zs) level position = do
    node ← (if position % 2 == 0 then ok z else occupied_slot level slot)
    above ← siblings_loop rounds slots zs (level + 1) (position / 2)
    ok (node ∷ above)

  pub append_with_siblings :
      NotesFrontier F → F → Outcome (NotesFrontier F × FrontierAppend F × List F)
  append_with_siblings t leaf = do
    siblings ← siblings_loop t.depth t.frontier t.zeroes 0 t.leaf_count
    (t', made) ← append t leaf
    ok (t', made, siblings)

  pub left_nodes_loop : (rounds : ℕ) → List (Option F) → ℕ → ℕ → Outcome (List F)
  unfolding occupied_slot
  left_nodes_loop zero slots level position = ok []
  left_nodes_loop (suc rounds) [] level position = panic
  left_nodes_loop (suc rounds) (slot ∷ slots) level position = do
    node ← (if position % 2 == 0 then ok fr.zero else occupied_slot level slot)
    above ← left_nodes_loop rounds slots (level + 1) (position / 2)
    ok (node ∷ above)

  pub next_leaf_frontier : NotesFrontier F → Outcome (List F)
  next_leaf_frontier t = do
    capacity ← tree_capacity t.depth
    ensure (ltb t.leaf_count capacity) (tree_full t.depth)
    left_nodes_loop t.depth t.frontier 0 t.leaf_count
