-- ===== src/Snapshot/Codec/Layout.antt =====
-- The layout of a `ShardedTreeSnapshot` in bytes, and the snapshots that it has room for.
use rs_core.Prelude.{
  ℕ, ◌+◌, ◌*◌, ◌^◌, ◌<◌, ◌≡◌, refl, List, ◌∷◌, ◌++◌, Bool, true, false, not, ◌||◌, arith, length,
  length-append, leb, ◌==◌,
}
use rs_core.Outcome.{ok}
use rs_core.Assoc.{All}
use rs_core.Bytes.{be_bytes}
use rs_core.Wire.{FrInt}
use rs_core.Snapshot.{fields_bytes, length-fields_bytes}
use rs_core.Snapshot.Codec.{ShardedTreeSnapshot, snapshot_magic, check_shape, siblings_count}
use rs_core.Snapshot.Codec.Records.{length-notes_bytes}
use rs_core.Snapshot.Codec.Written.{NoteFits, notes_bytes}

-- The snapshots that the format can hold.
pub record IsSnapshot {F : Type 0} (s : ShardedTreeSnapshot F) : Type 0 where
  pub geometry : (s.shard_height == 0 || leb s.depth s.shard_height) ≡ false
  pub narrow : s.depth < 256
  pub shape :
      check_shape s.depth s.shard_height (length s.completed_roots) (length s.live_leaves) ≡ ok tt
  pub roots_fit : length s.completed_roots < 2 ^ 32
  pub live_fit : length s.live_leaves < 2 ^ 32
  pub owned_fit : length s.owned_notes < 2 ^ 32
  pub notes_fit : All (NoteFits s.shard_height) s.owned_notes

pub false_of_not : (b : Bool) → not b ≡ true → b ≡ false
false_of_not true e = cc
false_of_not false e = refl

pub unit_eq : (u : Unit {0}) → u ≡ tt
unit_eq tt = refl

module _ {F : Type 0} ⦃int : FrInt F⦄ where
  unfoldable pub body_bytes : ShardedTreeSnapshot F → List ℕ
  body_bytes s =
      fields_bytes s.completed_roots ++ (fields_bytes s.live_leaves ++ notes_bytes s.owned_notes)

  -- The layout of a snapshot.
  unfoldable pub snapshot_bytes : ShardedTreeSnapshot F → List ℕ
  snapshot_bytes s =
      snapshot_magic
      ++ (1
          ∷ s.depth
          ∷ s.shard_height
          ∷ 0
          ∷ (be_bytes 4 (length s.completed_roots)
              ++ (be_bytes 4 (length s.live_leaves)
                  ++ (be_bytes 4 (length s.owned_notes) ++ body_bytes s))))

  pub length-body_bytes :
      (s : ShardedTreeSnapshot F)
      → length (body_bytes s)
        ≡ 32 * (length s.completed_roots + length s.live_leaves)
          + (40 * length s.owned_notes + 32 * siblings_count s.owned_notes)
  unfolding body_bytes
  length-body_bytes s = omega (
    arith,
    length-append (fields_bytes s.completed_roots)
        (fields_bytes s.live_leaves ++ notes_bytes s.owned_notes),
    length-append (fields_bytes s.live_leaves) (notes_bytes s.owned_notes),
    length-fields_bytes s.completed_roots,
    length-fields_bytes s.live_leaves,
    length-notes_bytes s.owned_notes,
  )
