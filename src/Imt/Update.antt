-- ===== src/Imt/Update.antt =====
-- Changing what is there: `Imt::update` and `Imt::truncate`.
use rs_core.Prelude.{
  ℕ, zero, suc, ◌/◌, ◌^◌, ◌≤◌, ◌<◌, ◌≡◌, refl, List, [], ◌∷◌, arith, length, set, take, drop,
  length-take, ltb, lt→ltb, ltb→lt, leb, if◌then◌else◌, Bool-cases, inl, inr,
}
use rs_core.Prelude.Halves.{pow_double}
use rs_core.Outcome.{ok, err, leaf_index_out_of_range}
use rs_core.Field.{Fr}
use rs_core.Imt.{build_parent_level, hash_pair, update_loop, update, truncate}
use rs_core.Imt.Parents.{build_parent_level-set, length-build_parent_level}
use rs_core.Imt.Build.{from_leaves_with_zero-tree_of}
use rs_core.Imt.Canonical.{
  zeroes_of, rows_above, rows_of, tree_of, leaf_count-tree_of, first_row-rows_of, rows_above-bottom,
  bottom-full, rows_of-bottom,
}

module _ {F : Type 0} ⦃fr : Fr F⦄ where
  update_loop-rows_above :
      (d : ℕ) (z : F) (row : List F) (i : ℕ) (leaf : F)
      → i < length row
      → length row ≤ 2 ^ d
      → update_loop d (zeroes_of d z) (set row i leaf) (drop 1 (rows_above d z row)) i
        ≡ ok (rows_above d z (set row i leaf))
  unfolding update_loop zeroes_of rows_above
  update_loop-rows_above zero z [] i leaf h k = absurd (omega arith)
  update_loop-rows_above zero z (a ∷ []) zero leaf h k = refl
  update_loop-rows_above zero z (a ∷ []) (suc i) leaf h k = absurd (omega arith)
  update_loop-rows_above zero z (a ∷ b ∷ row) i leaf h k = absurd (omega arith)
  update_loop-rows_above (suc d) z row i leaf h k =
      let up = build_parent_level row z in
      let inside : i / 2 < length up = omega (arith, length-build_parent_level row z) in
      rw
        (
          rows_above-bottom d (fr.poseidon z z) up,
          bottom-full d (fr.poseidon z z) up (omega arith)
              (omega (arith, pow_double d, length-build_parent_level row z)),
        )
        (rw (lt→ltb (i / 2) (length up) inside) (
          rw
            (update_loop-rows_above d (fr.poseidon z z) up (i / 2) (hash_pair (set row i leaf) i z)
              inside (omega (arith, pow_double d, length-build_parent_level row z)))
            (rw (build_parent_level-set row i leaf z h))))

  update_loop-rows_of :
      (d : ℕ) (z : F) (leaves : List F) (i : ℕ) (leaf : F)
      → i < length leaves
      → length leaves ≤ 2 ^ d
      → update_loop d (zeroes_of d z) (set leaves i leaf) (drop 1 (rows_above d z leaves)) i
        ≡ ok (rows_of d z (set leaves i leaf))
  unfolding rows_of
  update_loop-rows_of zero z leaves i leaf h k = unfold update_loop rows_above in refl
  update_loop-rows_of (suc d) z leaves i leaf h k =
      update_loop-rows_above (suc d) z leaves i leaf h k

  -- On a tree of leaves that fit, `update` of a place that holds a leaf gives the tree of the
  -- changed leaves, and reports any other place as out of range.
  pub update-tree_of :
      (d : ℕ) (z : F) (leaves : List F) (i : ℕ) (leaf : F)
      → length leaves ≤ 2 ^ d
      → update (tree_of d z leaves) i leaf ≡ (
          if ltb i (length leaves)
          then ok (tree_of d z (set leaves i leaf))
          else err (leaf_index_out_of_range i (length leaves)))
  unfolding update tree_of
  update-tree_of d z leaves i leaf k =
      rw (leaf_count-tree_of d z leaves) (elim (Bool-cases (ltb i (length leaves))) [
        | inl inside ↦
            rw (inside, rows_of-bottom d z leaves)
              (rw (update_loop-rows_of d z leaves i leaf (ltb→lt _ _ inside) k))
        | inr outside ↦ rw outside
      ])

  -- At a depth below 64 and on a tree of leaves that fit, `truncate` to no more leaves than there
  -- are gives the tree of the first `n` leaves, and reports any other count as out of range.
  pub truncate-tree_of :
      (d : ℕ) (z : F) (leaves : List F) (n : ℕ)
      → d < 64
      → length leaves ≤ 2 ^ d
      → truncate (tree_of d z leaves) n ≡ (
          if leb n (length leaves)
          then ok (tree_of d z (take n leaves))
          else err (leaf_index_out_of_range n (length leaves)))
  unfolding truncate tree_of
  truncate-tree_of d z leaves n h k =
      rw
        (
          leaf_count-tree_of d z leaves,
          first_row-rows_of d z leaves,
          from_leaves_with_zero-tree_of d z (take n leaves) h,
        )
        (ground (arith, length-take n leaves))
