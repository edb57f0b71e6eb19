-- ===== src/Frontier/Snapshot.antt =====
-- Snapshots of a `NotesFrontier` as bytes: `encode_snapshot`, `from_snapshot_bytes`, `append_be_32`
-- and `root_be_32` of crates/core/src/imt.rs. A number that overflows its bytes is cut off, as
-- Rust's `as` does; `usize` has the 64 bits of `u64`.

pub mod Body
pub mod Laws
pub mod Restore
pub mod Slots
mod Examples
use rs_core.Prelude.{
  ℕ, zero, suc, ◌+◌, ◌/◌, ◌%◌, Bool, true, false, not, List, [], ◌∷◌, ◌++◌, Option, none, some, ltb,
  ◌==◌, if◌then◌else◌, length, take, drop,
}
use rs_core.Outcome.{
  Outcome, ok, err, ◌>>=◌, ◌>>◌, ensure, index, slice, ok_or, invalid_snapshot, non_canonical_field,
  frontier_truncated, frontier_magic, frontier_reserved, frontier_version, frontier_over_capacity,
  frontier_slot_count, truncated_slot_flag, frontier_trailing, slot_flag, slot_mismatch,
}
use rs_core.Field.{Fr}
use rs_core.Bytes.{be_bytes, from_be, same_bytes}
use rs_core.Wire.{FrInt, fr_to_be_32, fr_from_be_32_checked}
use rs_core.Geometry.{tree_capacity}
use rs_core.Snapshot.{read_byte, read_field}
use rs_core.Frontier.{NotesFrontier, FrontierAppend, new, root, append}

-- `b"CVYFRONT"`
abbrev pub snapshot_magic : List ℕ
snapshot_magic = b'C' ∷ b'V' ∷ b'Y' ∷ b'F' ∷ b'R' ∷ b'O' ∷ b'N' ∷ b'T' ∷ []

abbrev pub is_some : {A : Type 0} → Option A → Bool
is_some none = false
is_some (some a) = true

-- `a == b` on Booleans
abbrev pub agree : Bool → Bool → Bool
agree true b = b
agree false b = not b

abbrev pub is_empty : List ℕ → Bool
is_empty [] = true
is_empty (b ∷ bs) = false

module _ {F : Type 0} ⦃fr : Fr F⦄ ⦃int : FrInt F⦄ where
  pub append_be_32 : NotesFrontier F → List ℕ → Outcome (NotesFrontier F × FrontierAppend F)
  append_be_32 t leaf = do x ← ok_or (fr_from_be_32_checked leaf) non_canonical_field; append t x

  pub root_be_32 : NotesFrontier F → Outcome (List ℕ)
  root_be_32 t = do r ← root t; ok (fr_to_be_32 r)

  pub slot_bytes : Option F → List ℕ
  slot_bytes none = 0 ∷ []
  slot_bytes (some x) = 1 ∷ fr_to_be_32 x

  pub slots_bytes : List (Option F) → List ℕ
  unfolding slot_bytes
  slots_bytes [] = []
  slots_bytes (slot ∷ slots) = slot_bytes slot ++ slots_bytes slots

  pub encode_snapshot : NotesFrontier F → List ℕ
  unfolding slots_bytes
  encode_snapshot t =
      snapshot_magic
      ++ (1
          ∷ (t.depth % 256)
          ∷ (t.shard_height % 256)
          ∷ 0
          ∷ (be_bytes 8 t.leaf_count ++ (be_bytes 4 (length t.frontier) ++ slots_bytes t.frontier)))

  pub read_slot : ℕ → List ℕ → Outcome (Option F × List ℕ)
  read_slot flag rest =
      if flag == 0
      then ok (none, rest)
      else if flag == 1
      then (do (x, rest') ← read_field rest; ok (some x, rest'))
      else err (invalid_snapshot (slot_flag flag))

  -- `for level in 0..slot_count`, with `rounds` levels left; `occupied` is `leaf_count >> level`.
  pub read_slots : (rounds : ℕ) → ℕ → ℕ → ℕ → List ℕ → Outcome (List (Option F) × List ℕ)
  unfolding read_slot
  read_slots zero level leaf_count occupied rest = ok ([], rest)
  read_slots (suc rounds) level leaf_count occupied rest = do
    (flag, rest1) ← read_byte truncated_slot_flag rest
    (slot, rest2) ← read_slot flag rest1
    ensure (agree (is_some slot) (occupied % 2 == 1))
        (invalid_snapshot (slot_mismatch level leaf_count))
    (slots, rest3) ← read_slots rounds (level + 1) leaf_count (occupied / 2) rest2
    ok (slot ∷ slots, rest3)

  -- What `from_snapshot_bytes` does behind the header: `rest` is the bytes of the slots.
  pub read_frontier : ℕ → ℕ → ℕ → ℕ → List ℕ → Outcome (NotesFrontier F)
  read_frontier depth shard_height leaf_count slot_count rest = do
    tree ← new depth shard_height
    capacity ← tree_capacity depth
    ensure (not (ltb capacity leaf_count))
        (invalid_snapshot (frontier_over_capacity leaf_count capacity))
    ensure (slot_count == depth + 1) (invalid_snapshot (frontier_slot_count slot_count (depth + 1)))
    (slots, rest') ← read_slots slot_count 0 leaf_count leaf_count rest
    ensure (is_empty rest') (invalid_snapshot frontier_trailing)
    ok (record tree { leaf_count = leaf_count; frontier = slots })

  pub from_snapshot_bytes : List ℕ → Outcome (NotesFrontier F)
  from_snapshot_bytes bytes = do
    ensure (not (ltb (length bytes) 24)) (invalid_snapshot frontier_truncated)
    ensure (same_bytes (take 8 bytes) snapshot_magic) (invalid_snapshot frontier_magic)
    version ← index bytes 8
    ensure (version == 1) (invalid_snapshot (frontier_version version))
    reserved ← index bytes 11
    ensure (reserved == 0) (invalid_snapshot frontier_reserved)
    depth ← index bytes 9
    shard_height ← index bytes 10
    raw_leaf_count ← slice bytes 12 8
    raw_slot_count ← slice bytes 20 4
    read_frontier depth shard_height (from_be raw_leaf_count) (from_be raw_slot_count)
        (drop 24 bytes)
