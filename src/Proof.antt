-- ===== src/Proof.antt =====
-- Inclusion proofs and their checks, from crates/core/src/imt.rs.
pub mod Paths
mod Examples
use rs_core.Prelude.{ℕ, ◌/◌, ◌%◌, Bool, false, ◌&&◌, List, [], ◌∷◌, ◌==◌, if◌then◌else◌, length}
use rs_core.Outcome.{ok}
use rs_core.Field.{Fr, same}
use rs_core.Geometry.{tree_capacity}

pub record InclusionProof (F : Type 0) : Type 0 where
  pub leaf : F
  pub index : ℕ
  pub siblings : List F
  pub root : F

module _ {F : Type 0} ⦃fr : Fr F⦄ where
  -- The loop of `verify_path`: the node that the path hashes to, and what is left of the index.
  unfoldable pub hash_path : F → ℕ → List F → F × ℕ
  hash_path node i [] = (node, i)
  hash_path node i (s ∷ siblings) =
      hash_path (if i % 2 == 0 then fr.poseidon node s else fr.poseidon s node) (i / 2) siblings

  unfoldable pub verify_path : InclusionProof F → Bool
  verify_path p =
      let (node, i) = hash_path p.leaf p.index p.siblings in (i == 0) && same node p.root

  unfoldable pub verify_proof_at_depth : InclusionProof F → ℕ → Bool
  verify_proof_at_depth p depth = elim (tree_capacity depth) [
    | ok _ ↦ (length p.siblings == depth) && verify_path p
    | _ ↦ false
  ]
