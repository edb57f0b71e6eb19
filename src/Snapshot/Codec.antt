-- ===== src/Snapshot/Codec.antt =====
-- `ShardedTreeSnapshot` of crates/core/src/imt.rs and its codec. `usize` has 64 bits; a conversion
-- or a checked sum that does not fit is an error, as in the source. The sum over the siblings is
-- unchecked there and the lists are in memory, so it stays below `2 ^ 64`.
pub mod Layout
pub mod Encode
pub mod Decode
pub mod RoundTrip
pub mod Written
pub mod Records
use rs_core.Prelude.{
  ℕ, zero, suc, ◌+◌, ◌-◌, ◌*◌, ◌^◌, Bool, true, false, not, ◌&&◌, ◌||◌, List, [], ◌∷◌, ◌++◌, Option,
  none, some, ltb, leb, ◌==◌, if◌then◌else◌, length, take, drop,
}
use rs_core.Outcome.{
  Outcome, SnapshotFault, ok, err, ◌>>=◌, ◌>>◌, ensure, index, ok_or, invalid_snapshot,
  invalid_geometry, invalid_sibling_count, too_many_roots, live_not_partial, live_over_capacity,
  truncated_header, bad_magic, reserved_header, unsupported_version, depth_too_wide,
  shard_height_too_wide, leaf_index_too_wide, too_many_completed, too_many_live, too_many_owned,
  size_overflow, field_count_overflow, field_bytes_overflow, owned_bytes_overflow,
  truncated_root_fields, truncated_owned, truncated_owned_flag, truncated_padding, nonzero_padding,
  trailing_bytes, path_flag,
}
use rs_core.Bytes.{be_bytes, same_bytes, get_range}
use rs_core.Wire.{FrInt, fr_to_be_32}
use rs_core.Geometry.{tree_capacity}
use rs_core.Sharded.{OwnedNoteWitness, is_some}
use rs_core.Snapshot.{
  append_fields, read_byte, read_u32, read_u32_at_cursor, read_field, read_fields,
}

pub record ShardedTreeSnapshot (F : Type 0) : Type 0 where
  pub depth : ℕ
  pub shard_height : ℕ
  pub completed_roots : List F
  pub live_leaves : List F
  pub owned_notes : List (OwnedNoteWitness F)

-- `b"CYST"`
abbrev pub snapshot_magic : List ℕ
snapshot_magic = b'C' ∷ b'Y' ∷ b'S' ∷ b'T' ∷ []

-- `try_into()` of a `usize`, or a checked operation on it: the value where it is below the bound
unfoldable pub fit : ℕ → ℕ → SnapshotFault → Outcome ℕ
fit bound n fault = if ltb n bound then ok n else err (invalid_snapshot fault)

-- The checks that `encode` and `decode` begin with.
unfoldable pub check_shape : ℕ → ℕ → ℕ → ℕ → Outcome (Unit {0})
check_shape depth shard_height completed live = do
  shard_size ← tree_capacity shard_height
  max_shards ← tree_capacity (depth - shard_height)
  ensure (not (ltb max_shards completed)) (invalid_snapshot too_many_roots)
  ensure (not (leb shard_size live)) (invalid_snapshot live_not_partial)
  ensure (not ((completed == max_shards) && not (live == 0))) (invalid_snapshot live_over_capacity)

module _ {F : Type 0} where
  -- `map_or(0, Vec::len)` and its sum
  unfoldable pub siblings_count : List (OwnedNoteWitness F) → ℕ
  siblings_count [] = 0
  siblings_count (owned ∷ notes) =
      elim owned.within_shard_siblings [ none ↦ 0 | some siblings ↦ length siblings ]
      + siblings_count notes

  -- The capacity of the buffer, which is an error where it does not fit `usize`.
  pub byte_capacity : ShardedTreeSnapshot F → Outcome ℕ
  unfolding siblings_count
  byte_capacity s = do
    a ← fit (2 ^ 64) (length s.completed_roots + length s.live_leaves) size_overflow
    b ← fit (2 ^ 64) (a + length s.owned_notes) size_overflow
    fields ← fit (2 ^ 64) (b + siblings_count s.owned_notes) size_overflow
    metadata ← fit (2 ^ 64) (length s.owned_notes * 8) size_overflow
    field_bytes ← fit (2 ^ 64) (fields * 32) size_overflow
    size ← fit (2 ^ 64) (20 + field_bytes) size_overflow
    fit (2 ^ 64) (size + metadata) size_overflow

module _ {F : Type 0} ⦃int : FrInt F⦄ where
  -- `if let Some(siblings) = …`, the flag before it included
  pub append_path : ℕ → List ℕ → Option (List F) → Outcome (List ℕ)
  append_path shard_height bytes none = ok (bytes ++ (0 ∷ 0 ∷ 0 ∷ 0 ∷ []))
  append_path shard_height bytes (some siblings) = do
    ensure (length siblings == shard_height) (invalid_sibling_count shard_height (length siblings))
    ok (append_fields (bytes ++ (1 ∷ 0 ∷ 0 ∷ 0 ∷ [])) siblings)

  pub append_owned : ℕ → List ℕ → List (OwnedNoteWitness F) → Outcome (List ℕ)
  unfolding append_path
  append_owned shard_height bytes [] = ok bytes
  append_owned shard_height bytes (owned ∷ notes) = do
    leaf_index ← fit (2 ^ 32) owned.leaf_index leaf_index_too_wide
    bytes' ←
        append_path shard_height (bytes ++ (fr_to_be_32 owned.note_id ++ be_bytes 4 leaf_index))
          owned.within_shard_siblings
    append_owned shard_height bytes' notes

  pub encode : ShardedTreeSnapshot F → Outcome (List ℕ)
  unfolding byte_capacity append_owned
  encode s = do
    ensure (not (s.shard_height == 0 || leb s.depth s.shard_height))
        (invalid_geometry s.depth s.shard_height)
    check_shape s.depth s.shard_height (length s.completed_roots) (length s.live_leaves)
    depth ← fit 256 s.depth depth_too_wide
    shard_height ← fit 256 s.shard_height shard_height_too_wide
    completed_count ← fit (2 ^ 32) (length s.completed_roots) too_many_completed
    live_count ← fit (2 ^ 32) (length s.live_leaves) too_many_live
    owned_count ← fit (2 ^ 32) (length s.owned_notes) too_many_owned
    _ ← byte_capacity s
    let header =
        snapshot_magic
        ++ (1
            ∷ depth
            ∷ shard_height
            ∷ 0
            ∷ (be_bytes 4 completed_count ++ (be_bytes 4 live_count ++ be_bytes 4 owned_count)))
    append_owned s.shard_height
        (append_fields (append_fields header s.completed_roots) s.live_leaves) s.owned_notes

  pub read_path : ℕ → ℕ → List ℕ → Outcome (Option (List F) × List ℕ)
  read_path shard_height flag rest =
      if flag == 0
      then ok (none, rest)
      else if flag == 1
      then (do (siblings, rest') ← read_fields rest shard_height; ok (some siblings, rest'))
      else err (invalid_snapshot (path_flag flag))

  -- One round of the loop over `owned_count`.
  pub read_owned_note : ℕ → List ℕ → Outcome (OwnedNoteWitness F × List ℕ)
  unfolding read_path
  read_owned_note shard_height bytes = do
    (note_id, rest1) ← read_field bytes
    (leaf_index, rest2) ← read_u32_at_cursor rest1
    (flag, rest3) ← read_byte truncated_owned_flag rest2
    (reserved, rest4) ← ok_or (get_range 3 rest3) (invalid_snapshot truncated_padding)
    ensure (same_bytes reserved (0 ∷ 0 ∷ 0 ∷ [])) (invalid_snapshot nonzero_padding)
    (path, rest5) ← read_path shard_height flag rest4
    ok (record { note_id = note_id; leaf_index = leaf_index; within_shard_siblings = path }, rest5)

  pub read_owned : ℕ → ℕ → List ℕ → Outcome (List (OwnedNoteWitness F) × List ℕ)
  unfolding read_owned_note
  read_owned shard_height zero bytes = ok ([], bytes)
  read_owned shard_height (suc count) bytes = do
    (owned, rest) ← read_owned_note shard_height bytes
    (notes, rest') ← read_owned shard_height count rest
    ok (owned ∷ notes, rest')

  -- What `decode` does behind the header, `bytes`: its guards on the counts, and the reads.
  pub decode_body : ℕ → ℕ → ℕ → ℕ → ℕ → List ℕ → Outcome (ShardedTreeSnapshot F)
  unfolding read_owned
  decode_body depth shard_height completed_count live_count owned_count bytes = do
    check_shape depth shard_height completed_count live_count
    fixed_field_count ← fit (2 ^ 64) (completed_count + live_count) field_count_overflow
    fixed_bytes ← fit (2 ^ 64) (fixed_field_count * 32) field_bytes_overflow
    ensure (not (ltb (length bytes) fixed_bytes)) (invalid_snapshot truncated_root_fields)
    minimum_owned_bytes ← fit (2 ^ 64) (owned_count * 40) owned_bytes_overflow
    ensure (not (ltb (length bytes - fixed_bytes) minimum_owned_bytes))
        (invalid_snapshot truncated_owned)
    (completed_roots, rest1) ← read_fields bytes completed_count
    (live_leaves, rest2) ← read_fields rest1 live_count
    (owned_notes, rest3) ← read_owned shard_height owned_count rest2
    ensure (length rest3 == 0) (invalid_snapshot trailing_bytes)
    ok (record {
      depth = depth;
      shard_height = shard_height;
      completed_roots = completed_roots;
      live_leaves = live_leaves;
      owned_notes = owned_notes;
    })

  pub decode : List ℕ → Outcome (ShardedTreeSnapshot F)
  unfolding decode_body
  decode bytes = do
    ensure (not (ltb (length bytes) 20)) (invalid_snapshot truncated_header)
    ensure (same_bytes (take 4 bytes) snapshot_magic) (invalid_snapshot bad_magic)
    version ← index bytes 4
    ensure (version == 1) (invalid_snapshot (unsupported_version version))
    reserved ← index bytes 7
    ensure (reserved == 0) (invalid_snapshot reserved_header)
    depth ← index bytes 5
    shard_height ← index bytes 6
    ensure (not (shard_height == 0 || leb depth shard_height)) (invalid_geometry depth shard_height)
    completed_count ← read_u32 bytes 8
    live_count ← read_u32 bytes 12
    owned_count ← read_u32 bytes 16
    decode_body depth shard_height completed_count live_count owned_count (drop 20 bytes)
