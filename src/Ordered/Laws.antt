-- ===== src/Ordered/Laws.antt =====
-- Each operation of `OrderedMerkleTree` on the tree of a list of leaves.
use rs_core.Prelude.{
  ℕ, ◌^◌, ◌<◌, ◌≡◌, List, [], ◌∷◌, ◌++◌, arith, length, ltb, leb, if◌then◌else◌, Bool-cases, inl,
  inr, le→ltb, lt→ltb,
}
use rs_core.Outcome.{ok, err, tree_full, leaf_index_out_of_range}
use rs_core.Field.{Fr}
use rs_core.Geometry.{tree_capacity_lem}
use rs_core.Proof.Paths.{proof_of}
use rs_core.Merkle.{padded}
use rs_core.Imt.Canonical.{tree_of, leaf_count-tree_of}
use rs_core.Imt.Build.{from_leaves-tree_of}
use rs_core.Imt.Insert.{insert-tree_of}
use rs_core.Imt.Root.{create_proof_inside}
use rs_core.Ordered.{OrderedMerkleTree, from_leaves, insert, create_proof_at}

module _ {F : Type 0} ⦃fr : Fr F⦄ where
  abbrev pub ordered_of : ℕ → List F → OrderedMerkleTree F
  ordered_of d leaves = record { tree = tree_of d fr.zero leaves }

  -- At a depth below 64, `from_leaves` gives the ordered tree of leaves that fit, and reports
  -- leaves that do not fit as `TreeFull`.
  pub from_leaves-ordered_of :
      (d : ℕ) (leaves : List F)
      → d < 64
      → from_leaves d leaves
        ≡ (if leb (length leaves) (2 ^ d) then ok (ordered_of d leaves) else err (tree_full d))
  unfolding from_leaves
  from_leaves-ordered_of d leaves c =
      rw (tree_capacity_lem d c) (elim (Bool-cases (leb (length leaves) (2 ^ d))) [
        | inl room ↦
            rw (room, le→ltb (2 ^ d) (length leaves) (ground arith), from_leaves-tree_of d leaves c)
              (rw room)
        | inr full ↦ rw (full, lt→ltb (2 ^ d) (length leaves) (ground arith))
      ])

  -- At a depth below 64, `insert` into the ordered tree of a list of leaves appends the leaf,
  -- which may be there already, and returns its place, or reports `TreeFull`.
  pub insert-ordered_of :
      (d : ℕ) (leaves : List F) (leaf : F)
      → d < 64
      → insert (ordered_of d leaves) leaf ≡ (
          if ltb (length leaves) (2 ^ d)
          then ok (ordered_of d (leaves ++ (leaf ∷ [])), length leaves)
          else err (tree_full d))
  unfolding insert tree_of
  insert-ordered_of d leaves leaf c =
      rw (leaf_count-tree_of d fr.zero leaves, tree_capacity_lem d c)
        (elim (Bool-cases (ltb (length leaves) (2 ^ d))) [
          | inl room ↦ rw (room, insert-tree_of d fr.zero leaves leaf c) (rw room)
          | inr full ↦ rw full
        ])

  -- On the ordered tree of a list of leaves, `create_proof_at` proves each place that holds a
  -- leaf, under the Merkle root, and reports every other place as out of range.
  pub create_proof_at-ordered_of :
      (d : ℕ) (leaves : List F) (i : ℕ)
      → create_proof_at (ordered_of d leaves) i ≡ (
          if ltb i (length leaves)
          then ok (proof_of d (padded leaves fr.zero) i)
          else err (leaf_index_out_of_range i (length leaves)))
  unfolding create_proof_at
  create_proof_at-ordered_of d leaves i =
      rw (leaf_count-tree_of d fr.zero leaves) (elim (Bool-cases (ltb i (length leaves))) [
        | inl inside ↦ rw (inside, create_proof_inside d fr.zero leaves i (ground arith))
        | inr outside ↦ rw outside
      ])
