-- ===== src/Imt/Root.antt =====
-- Reading the tree: `Imt::root`, `Imt::create_proof` and `Imt::next_leaf_frontier`.
use rs_core.Prelude.{
  ℕ, zero, suc, ◌-◌, ◌/◌, ◌%◌, ◌^◌, ◌≤◌, ◌<◌, ◌≡◌, refl, ap, ◌∙◌, fun_ext, List, [], ◌∷◌, arith,
  length, get_elem?, some, get_or, ltb, ltb→lt, lt→ltb, ◌==◌, if◌then◌else◌, Bool-cases, inl, inr,
}
use rs_core.Outcome.{ok, err, panic, index-get_or, tree_full}
use rs_core.Field.{Fr}
use rs_core.Geometry.{tree_capacity_lem}
use rs_core.Proof.{InclusionProof}
use rs_core.Proof.Paths.{proof_of}
use rs_core.Merkle.{padded, pairs, subtree, merkle_root, merkle_path, merkle_frontier, other}
use rs_core.Imt.{
  build_parent_level, root, is_empty, sibling_index, proof_loop, create_proof, frontier_loop,
  next_leaf_frontier,
}
use rs_core.Imt.Parents.{get_or-build_parent_level, length-build_parent_level}
use rs_core.Imt.Canonical.{
  zeroes_of, rows_above, rows_of, tree_of, leaf_count-tree_of, first_row-rows_of,
}

pub sibling_index-other : (i : ℕ) → sibling_index i ≡ other i
unfolding sibling_index other
sibling_index-other i = ground arith

module _ {F : Type 0} ⦃fr : Fr F⦄ where
  pub padded-build_parent_level :
      (row : List F) (z : F)
      → padded (build_parent_level row z) (fr.poseidon z z) ≡ pairs (padded row z)
  padded-build_parent_level row z = fun_ext (get_or-build_parent_level row z)

  top_row :
      (d : ℕ) (z : F) (row : List F)
      → get_elem? (rows_above d z row) d ≡ some (subtree d (padded row z) 0 ∷ [])
  unfolding rows_above subtree
  top_row zero z row = refl
  top_row (suc d) z row =
      top_row d (fr.poseidon z z) (build_parent_level row z)
      ∙ ap (λ f. some (subtree d f 0 ∷ [])) (padded-build_parent_level row z)

  -- The stored root is the Merkle root of the leaves, padded with zero leaves.
  pub root-tree_of :
      (d : ℕ) (z : F) (leaves : List F) → root (tree_of d z leaves) ≡ ok (merkle_root d z leaves)
  unfolding root tree_of rows_of merkle_root is_empty rows_above subtree
  root-tree_of zero z [] = refl
  root-tree_of zero z (a ∷ leaves) = refl
  root-tree_of (suc d) z leaves = rw (top_row (suc d) z leaves) (ground arith)

  proof_loop-rows_above :
      (d : ℕ) (z : F) (row : List F) (i : ℕ)
      → proof_loop d (zeroes_of d z) (rows_above d z row) i ≡ ok (merkle_path d (padded row z) i)
  unfolding proof_loop zeroes_of rows_above merkle_path
  proof_loop-rows_above zero z row i = refl
  proof_loop-rows_above (suc d) z row i =
      rw (proof_loop-rows_above d (fr.poseidon z z) (build_parent_level row z) (i / 2))
        (rw (padded-build_parent_level row z, sibling_index-other i))

  proof_loop-rows_of :
      (d : ℕ) (z : F) (leaves : List F) (i : ℕ)
      → proof_loop d (zeroes_of d z) (rows_of d z leaves) i ≡ ok (merkle_path d (padded leaves z) i)
  unfolding rows_of
  proof_loop-rows_of zero z leaves i = unfold proof_loop merkle_path in refl
  proof_loop-rows_of (suc d) z leaves i = proof_loop-rows_above (suc d) z leaves i

  -- `create_proof` on the tree of a list of leaves returns the leaf, its Merkle path and the
  -- Merkle root, and panics out of range.
  pub create_proof-tree_of :
      (d : ℕ) (z : F) (leaves : List F) (i : ℕ)
      → create_proof (tree_of d z leaves) i ≡ (
          if ltb i (length leaves)
          then ok (record {
            leaf = get_or leaves i z;
            index = i;
            siblings = merkle_path d (padded leaves z) i;
            root = merkle_root d z leaves;
          })
          else panic)
  unfolding create_proof
  create_proof-tree_of d z leaves i =
      rw (leaf_count-tree_of d z leaves) (elim (Bool-cases (ltb i (length leaves))) [
        | inl inside ↦ rw inside (
            unfold tree_of in
            rw
              (
                first_row-rows_of d z leaves,
                index-get_or leaves i z (ltb→lt _ _ inside),
                proof_loop-rows_of d z leaves i,
              )
              (rw (root-tree_of d z leaves)))
        | inr outside ↦ rw outside
      ])

  pub create_proof_inside :
      (d : ℕ) (z : F) (leaves : List F) (i : ℕ)
      → i < length leaves
      → create_proof (tree_of d z leaves) i ≡ ok (proof_of d (padded leaves z) i)
  unfolding merkle_root
  create_proof_inside d z leaves i h =
      create_proof-tree_of d z leaves i ∙ rw (lt→ltb i (length leaves) h)

  pub create_proof_ok :
      (d : ℕ) (z : F) (leaves : List F) (i : ℕ) {p : InclusionProof F}
      → create_proof (tree_of d z leaves) i ≡ ok p
      → (i < length leaves) × (p ≡ proof_of d (padded leaves z) i)
  unfolding merkle_root
  create_proof_ok d z leaves i e = ground (arith, create_proof-tree_of d z leaves i)

  frontier_loop-rows_above :
      (d : ℕ) (z : F) (row : List F) (position : ℕ)
      → position ≤ length row
      → frontier_loop d (rows_above d z row) position
        ≡ ok (merkle_frontier d (padded row z) position)
  unfolding frontier_loop rows_above merkle_frontier
  frontier_loop-rows_above zero z row position h = refl
  frontier_loop-rows_above (suc d) z row position h =
      rw
        (frontier_loop-rows_above d (fr.poseidon z z) (build_parent_level row z) (position / 2)
          (omega (arith, length-build_parent_level row z)))
        (elim (Bool-cases (position % 2 == 1)) [
          | inl odd ↦ rw (
            odd,
            index-get_or row (position - 1) z (ground arith),
            padded-build_parent_level row z,
          )
          | inr even ↦ rw (even, padded-build_parent_level row z)
        ])

  frontier_loop-rows_of :
      (d : ℕ) (z : F) (leaves : List F)
      → frontier_loop d (rows_of d z leaves) (length leaves)
        ≡ ok (merkle_frontier d (padded leaves z) (length leaves))
  unfolding rows_of
  frontier_loop-rows_of zero z leaves = unfold frontier_loop merkle_frontier in refl
  frontier_loop-rows_of (suc d) z leaves =
      frontier_loop-rows_above (suc d) z leaves (length leaves) (omega arith)

  -- At a depth below 64, `next_leaf_frontier` of the tree of a list of leaves returns the roots
  -- of the finished subtrees on the left of the next free place, with zero where the next leaf's
  -- node is a left one, and reports a full tree.
  pub next_leaf_frontier-tree_of :
      (d : ℕ) (z : F) (leaves : List F)
      → d < 64
      → next_leaf_frontier (tree_of d z leaves) ≡ (
          if ltb (length leaves) (2 ^ d)
          then ok (merkle_frontier d (padded leaves z) (length leaves))
          else err (tree_full d))
  unfolding next_leaf_frontier tree_of
  next_leaf_frontier-tree_of d z leaves h = rw (tree_capacity_lem d h) (
      rw (leaf_count-tree_of d z leaves) (elim (Bool-cases (ltb (length leaves) (2 ^ d))) [
        | inl room ↦ rw room (frontier_loop-rows_of d z leaves)
        | inr full ↦ rw full
      ]))
