-- ===== src/Sharded/Restore/Bytes.antt =====
-- A sharded tree stored as bytes and restored, and what any restored tree stands for.
use rs_core.Prelude.{ℕ, ◌*◌, ◌^◌, ◌≤◌, ◌<◌, ◌≡◌, sym, ◌∙◌, List, [], ◌++◌, length}
use rs_core.Outcome.{ok}
use rs_core.Assoc.{All, find}
use rs_core.Field.{Fr}
use rs_core.Wire.{FrInt}
use rs_core.Snapshot.Codec.RoundTrip.{decode-encode}
use rs_core.Sharded.{ShardedNotesTree, OwnedNoteWitness}
use rs_core.Sharded.Canonical.{sharded_of}
use rs_core.Sharded.Holds.{Holds}
use rs_core.Sharded.Restore.{from_snapshot, snapshot, encode_snapshot, from_snapshot_bytes, values}
use rs_core.Sharded.Restore.Lists.{Distinct}
use rs_core.Sharded.Restore.Sound.{restore_notes-Holds}
use rs_core.Sharded.Restore.Start.{stored, from_snapshot-stored, base-Holds}
use rs_core.Sharded.Restore.Complete.{from_snapshot-snapshot}

module _ {F : Type 0} ⦃fr : Fr F⦄ where
  -- Whatever owned notes a snapshot lists, a tree restored from it stands for the snapshot's
  -- leaves, so each of its notes is tracked with a path that is right for them. The snapshot's
  -- roots are those of the first `q` shards, its live leaves less than a shard and all leaves
  -- within the capacity.
  pub from_snapshot-Holds :
      (d sh q : ℕ) (done live : List F) (notes : List (OwnedNoteWitness F)) (t : ShardedNotesTree F)
      → d < 64
      → 0 < sh
      → sh < d
      → length done ≡ q * 2 ^ sh
      → length live < 2 ^ sh
      → length (done ++ live) ≤ 2 ^ d
      → from_snapshot (stored d sh q done live notes) ≡ ok t
      → Holds d sh (done ++ live) t
  from_snapshot-Holds d sh q done live notes t c p cut h k room e =
      restore_notes-Holds d sh (done ++ live) (2 ^ d) (sharded_of d sh q done live [] [] []) notes
        (base-Holds d sh q done live c cut h k room)
        (sym (from_snapshot-stored d sh q done live notes c p cut h k room) ∙ e)

module _ {F : Type 0} ⦃fr : Fr F⦄ ⦃int : FrInt F⦄ where
  -- The bytes that a state standing for `leaves` is stored as are restored, whenever the tree's
  -- owned notes are within its capacity and differ in their ids and places: the restored state
  -- stands for the same leaves and has the same note under every id.
  pub from_snapshot_bytes-encode_snapshot :
      (d sh : ℕ) (leaves : List F) (t : ShardedNotesTree F) (bytes : List ℕ)
      → Holds d sh leaves t
      → 0 < sh
      → All (λ owned. owned.leaf_index < 2 ^ d) (values t.owned_notes)
      → Distinct (values t.owned_notes)
      → encode_snapshot t ≡ ok bytes
      → (t' : ShardedNotesTree F) × (from_snapshot_bytes bytes ≡ ok t')
        × Holds d sh leaves t'
        × ((id : F) → find fr.eq t'.owned_notes id ≡ find fr.eq t.owned_notes id)
  unfolding encode_snapshot from_snapshot_bytes
  from_snapshot_bytes-encode_snapshot d sh leaves t bytes h p low distinct e =
      let (t', run, held, notes) = from_snapshot-snapshot d sh leaves t h p low distinct in
      (t', rw (decode-encode (snapshot t) e) run, held, notes)
