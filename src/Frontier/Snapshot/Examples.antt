-- ===== src/Frontier/Snapshot/Examples.antt =====
-- A frontier of depth two with one leaf, stored and restored.
use rs_core.Prelude.{ℕ, List, [], ◌∷◌, ◌++◌, ◌≡◌, ◌↔◌, replicate, arith}
use rs_core.Outcome.{ok, ◌>>=◌}
use rs_core.Wire.{fr_to_be_32}
use rs_core.Merkle.{merkle_root}
use rs_core.Frontier.Canonical.{frontier_of}
use rs_core.Frontier.Snapshot.{
  snapshot_magic, encode_snapshot, from_snapshot_bytes, append_be_32, root_be_32,
}
use rs_core.Frontier.Snapshot.Laws.{from_snapshot_bytes_iff}
use rs_core.Frontier.Snapshot.Body.{IsFrontier}
use rs_core.Frontier.Snapshot.Restore.{restored-append_be_32-root_be_32}
use rs_core.Toy.{Residue, residue, residue_int, residue_field}

abbrev one_leaf_bytes : List ℕ
one_leaf_bytes =
    snapshot_magic
    ++ (1
        ∷ 2
        ∷ 1
        ∷ 0
        ∷ 0
        ∷ 0
        ∷ 0
        ∷ 0
        ∷ 0
        ∷ 0
        ∷ 0
        ∷ 1
        ∷ 0
        ∷ 0
        ∷ 0
        ∷ 3
        ∷ 1
        ∷ (replicate 31 0 ++ (7 ∷ 0 ∷ 0 ∷ [])))

abbrev leaves : List Residue
leaves = residue 7 ∷ []

from_snapshot_bytes_iff_example :
    (from_snapshot_bytes one_leaf_bytes ≡ ok (frontier_of 2 1 leaves)) ↔ (
      IsFrontier (frontier_of 2 1 leaves)
      × (encode_snapshot (frontier_of 2 1 leaves) ≡ one_leaf_bytes))
from_snapshot_bytes_iff_example =
    from_snapshot_bytes_iff one_leaf_bytes (frontier_of 2 1 leaves) (omega arith)

restored-append_be_32-root_be_32_example :
    (do
      t ← from_snapshot_bytes {F = Residue} (encode_snapshot (frontier_of 2 1 leaves))
      (t', _) ← append_be_32 t (fr_to_be_32 (residue 8))
      root_be_32 t')
    ≡ ok (fr_to_be_32 (merkle_root 2 residue_field.zero (leaves ++ (residue 8 ∷ []))))
restored-append_be_32-root_be_32_example =
    restored-append_be_32-root_be_32 2 1 leaves (residue 8) (omega arith) (omega arith)
      (omega arith) (omega arith)
