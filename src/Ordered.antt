-- ===== src/Ordered.antt =====
-- `OrderedMerkleTree` of crates/core/src/imt.rs: a tree addressed by place, where leaves may repeat.
pub mod Laws
use rs_core.Prelude.{ℕ, ◌^◌, ◌+◌, List, ltb, leb, not, length, if◌then◌else◌}
use rs_core.Outcome.{Outcome, ok, ◌>>=◌, ◌>>◌, ensure, expect, tree_full, leaf_index_out_of_range}
use rs_core.Field.{Fr}
use rs_core.Geometry.{tree_capacity}
use rs_core.Proof.{InclusionProof}
use rs_core.Imt
use rs_core.Imt.{Imt}

pub record OrderedMerkleTree (F : Type 0) : Type 0 where
  pub tree : Imt F

module _ {F : Type 0} ⦃fr : Fr F⦄ where
  pub new : ℕ → Outcome (OrderedMerkleTree F)
  new depth = do _ ← tree_capacity depth; tree ← Imt.new depth; ok (record { tree = tree })

  pub from_leaves : ℕ → List F → Outcome (OrderedMerkleTree F)
  from_leaves depth leaves = do
    capacity ← tree_capacity depth
    ensure (not (ltb capacity (length leaves))) (tree_full depth)
    tree ← Imt.from_leaves depth leaves
    ok (record { tree = tree })

  pub root : OrderedMerkleTree F → Outcome F
  root t = Imt.root t.tree

  pub insert : OrderedMerkleTree F → F → Outcome (OrderedMerkleTree F × ℕ)
  insert t leaf = do
    capacity ← tree_capacity t.tree.depth
    ensure (ltb (Imt.leaf_count t.tree) capacity) (tree_full t.tree.depth)
    let i = Imt.leaf_count t.tree
    tree ← Imt.insert t.tree leaf
    ok (record { tree = tree }, i)

  pub insert_many : OrderedMerkleTree F → List F → Outcome (OrderedMerkleTree F)
  insert_many t leaves = do tree ← Imt.insert_many t.tree leaves; ok (record { tree = tree })

  pub create_proof_at : OrderedMerkleTree F → ℕ → Outcome (InclusionProof F)
  create_proof_at t i = do
    ensure (ltb i (Imt.leaf_count t.tree)) (leaf_index_out_of_range i (Imt.leaf_count t.tree))
    Imt.create_proof t.tree i
