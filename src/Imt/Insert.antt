-- ===== src/Imt/Insert.antt =====
-- Appending one leaf: `Imt::insert`.
use rs_core.Prelude.{
  ℕ, zero, suc, ◌+◌, ◌/◌, ◌^◌, ◌≤◌, ◌<◌, ◌≡◌, refl, List, [], ◌∷◌, ◌++◌, arith, length, take,
  take_all, ltb, ltb→lt, Bool-cases, if◌then◌else◌, inl, inr,
}
use rs_core.Prelude.Halves.{half-lt-pow}
use rs_core.Outcome.{ok, panic}
use rs_core.Field.{Fr}
use rs_core.Geometry.{tree_capacity_lem}
use rs_core.Imt.{build_parent_level, place, hash_pair, insert_loop, insert}
use rs_core.Imt.Parents.{build_parent_level-last, length-build_parent_level}
use rs_core.Imt.Canonical.{zeroes_of, rows_above, rows_of, tree_of, leaf_count-tree_of}

module _ {F : Type 0} ⦃fr : Fr F⦄ where
  place_last :
      (row : List F) (i : ℕ) (node z : F)
      → i ≤ length row
      → length row ≤ i + 1
      → place row i node z ≡ take i row ++ (node ∷ [])
  unfolding place
  place_last [] zero node z h k = refl
  place_last [] (suc i) node z h k = absurd (omega arith)
  place_last (a ∷ []) zero node z h k = refl
  place_last (a ∷ b ∷ row) zero node z h k = absurd (omega arith)
  place_last (a ∷ row) (suc i) node z h k =
      ground (arith, place_last row i node z (omega arith) (omega arith))

  -- Above the leaves: the new node is the last of its row, or follows it.
  insert_loop-rows_above :
      (d : ℕ) (z : F) (row : List F) (node : F) (i : ℕ)
      → i ≤ length row
      → length row ≤ i + 1
      → i < 2 ^ d
      → insert_loop d (zeroes_of d z) (rows_above d z row) node i
        ≡ ok (rows_above d z (take i row ++ (node ∷ [])))
  unfolding insert_loop zeroes_of rows_above
  insert_loop-rows_above zero z row node zero h k b = refl
  insert_loop-rows_above zero z row node (suc i) h k b = absurd (omega arith)
  insert_loop-rows_above (suc d) z row node i h k b = rw (place_last row i node z h k) (
      rw
        (insert_loop-rows_above d (fr.poseidon z z) (build_parent_level row z)
          (hash_pair (take i row ++ (node ∷ [])) i z) (i / 2)
          (omega (arith, length-build_parent_level row z))
          (omega (arith, length-build_parent_level row z)) (half-lt-pow d i b))
        (rw (← build_parent_level-last row i node z h)))

  take-length : (leaves : List F) → take (length leaves) leaves ≡ leaves
  take-length leaves = take_all leaves (length leaves) (omega arith)

  insert_loop-rows_of :
      (d : ℕ) (z : F) (leaves : List F) (leaf : F)
      → length leaves < 2 ^ d
      → insert_loop d (zeroes_of d z) (rows_of d z leaves) leaf (length leaves)
        ≡ ok (rows_of d z (leaves ++ (leaf ∷ [])))
  unfolding insert_loop zeroes_of rows_of
  insert_loop-rows_of zero z [] leaf b = refl
  insert_loop-rows_of zero z (a ∷ leaves) leaf b = absurd (omega arith)
  insert_loop-rows_of (suc d) z leaves leaf b =
      rw (take-length leaves) at
        (insert_loop-rows_above (suc d) z leaves leaf (length leaves) (omega arith) (omega arith) b)

  -- At a depth below 64, `insert` on the tree of a list of leaves panics when the tree is full
  -- and otherwise gives the tree of the leaves with the new one at the end.
  pub insert-tree_of :
      (d : ℕ) (z : F) (leaves : List F) (leaf : F)
      → d < 64
      → insert (tree_of d z leaves) leaf
        ≡ (if ltb (length leaves) (2 ^ d) then ok (tree_of d z (leaves ++ (leaf ∷ []))) else panic)
  unfolding insert tree_of
  insert-tree_of d z leaves leaf h = rw (tree_capacity_lem d h) (
      rw (leaf_count-tree_of d z leaves) (elim (Bool-cases (ltb (length leaves) (2 ^ d))) [
        | inl room ↦ rw (room, insert_loop-rows_of d z leaves leaf (ltb→lt _ _ room))
        | inr full ↦ rw full
      ]))
