-- ===== src/Indexed.antt =====
-- `IndexedMerkleTree` of crates/core/src/imt.rs: a tree of distinct leaves with a reverse index.
-- Hash maps and hash sets are functions.
pub mod Map
pub mod Laws
mod Examples
use rs_core.Prelude.{
  ℕ, ◌+◌, ◌-◌, ◌||◌, Bool, true, false, List, [], ◌∷◌, Option, none, some, ltb, not, length, take,
  drop, if◌then◌else◌,
}
use rs_core.Outcome.{
  Outcome, ok, err, ◌>>=◌, ◌>>◌, ensure, expect, ok_or, tree_full, duplicate_leaf, leaf_not_found,
  leaf_index_out_of_range,
}
use rs_core.Field.{Fr, same}
use rs_core.Geometry.{tree_capacity}
use rs_core.Proof.{InclusionProof}
use rs_core.Imt
use rs_core.Imt.{Imt, first_row}
use Map.{Index, no_index, put, contains_key, remove_all}

pub record IndexedMerkleTree (F : Type 0) : Type 0 where
  pub tree : Imt F
  pub indices : Index F

module _ {F : Type 0} ⦃fr : Fr F⦄ where
  pub new : ℕ → Outcome (IndexedMerkleTree F)
  new depth = do
    _ ← tree_capacity depth
    tree ← Imt.new depth
    ok (record { tree = tree; indices = no_index })

  -- `if indices.insert(leaf, index).is_some() { return Err(DuplicateLeaf) }`
  pub index_loop : Index F → ℕ → List F → Outcome (Index F)
  index_loop m i [] = ok m
  index_loop m i (leaf ∷ leaves) = do
    ensure (not (contains_key m leaf)) duplicate_leaf
    index_loop (put m leaf i) (i + 1) leaves

  pub from_leaves : ℕ → List F → Outcome (IndexedMerkleTree F)
  from_leaves depth leaves = do
    capacity ← tree_capacity depth
    ensure (not (ltb capacity (length leaves))) (tree_full depth)
    indices ← index_loop no_index 0 leaves
    tree ← Imt.from_leaves depth leaves
    ok (record { tree = tree; indices = indices })

  pub root : IndexedMerkleTree F → Outcome F
  root t = Imt.root t.tree

  pub get_index : IndexedMerkleTree F → F → Option ℕ
  get_index t leaf = t.indices leaf

  pub insert : IndexedMerkleTree F → F → Outcome (IndexedMerkleTree F × ℕ)
  insert t leaf = do
    ensure (not (contains_key t.indices leaf)) duplicate_leaf
    capacity ← tree_capacity t.tree.depth
    ensure (ltb (Imt.leaf_count t.tree) capacity) (tree_full t.tree.depth)
    let i = Imt.leaf_count t.tree
    tree ← Imt.insert t.tree leaf
    ok (record { tree = tree; indices = put t.indices leaf i }, i)

  -- `incoming` is the set of the batch's leaves so far.
  pub check_loop : Index F → (F → Bool) → List F → Outcome (Unit {0})
  check_loop m incoming [] = ok tt
  check_loop m incoming (leaf ∷ leaves) = do
    ensure (not (contains_key m leaf || incoming leaf)) duplicate_leaf
    check_loop m (λ x. same x leaf || incoming x) leaves

  pub check_insert_many : IndexedMerkleTree F → List F → Outcome (Unit {0})
  check_insert_many t leaves = do
    capacity ← tree_capacity t.tree.depth
    ensure (not (ltb (capacity - Imt.leaf_count t.tree) (length leaves))) (tree_full t.tree.depth)
    check_loop t.indices (λ x. false) leaves

  -- `indices.extend(leaves.zip(first..))`
  pub extend : Index F → ℕ → List F → Index F
  extend m i [] = m
  extend m i (leaf ∷ leaves) = extend (put m leaf i) (i + 1) leaves

  pub insert_many : IndexedMerkleTree F → List F → Outcome (IndexedMerkleTree F)
  unfolding check_insert_many
  insert_many t leaves = do
    check_insert_many t leaves
    let first = Imt.leaf_count t.tree
    tree ← Imt.insert_many t.tree leaves
    ok (record { tree = tree; indices = extend t.indices first leaves })

  pub next_leaf_frontier : IndexedMerkleTree F → Outcome (List F)
  next_leaf_frontier t = Imt.next_leaf_frontier t.tree

  pub create_proof : IndexedMerkleTree F → F → Outcome (InclusionProof F)
  unfolding get_index
  create_proof t leaf = do i ← ok_or (get_index t leaf) leaf_not_found; Imt.create_proof t.tree i

  pub create_proof_at : IndexedMerkleTree F → ℕ → Outcome (InclusionProof F)
  create_proof_at t i = do
    ensure (ltb i (Imt.leaf_count t.tree)) (leaf_index_out_of_range i (Imt.leaf_count t.tree))
    Imt.create_proof t.tree i

  pub truncate : IndexedMerkleTree F → ℕ → Outcome (IndexedMerkleTree F)
  truncate t n = do
    ensure (not (ltb (Imt.leaf_count t.tree) n)) (leaf_index_out_of_range n (Imt.leaf_count t.tree))
    let removed = drop n (first_row t.tree.nodes)
    tree ← Imt.truncate t.tree n
    ok (record { tree = tree; indices = remove_all t.indices removed })
