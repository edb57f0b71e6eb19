-- ===== src/Imt/Build.antt =====
-- Building in one go: `Imt::new_with_zero` and `Imt::from_leaves_with_zero`.
use rs_core.Prelude.{
  ℕ, zero, suc, ◌^◌, ◌≤◌, ◌<◌, ◌≡◌, refl, ap, List, [], ◌∷◌, ◌++◌, arith, length, get_elem?, some,
  take, replicate, leb, Bool-cases, inl, inr, if◌then◌else◌,
}
use rs_core.Prelude.Halves.{pow_double}
use rs_core.Outcome.{ok, panic, index_ok}
use rs_core.Field.{Fr}
use rs_core.Geometry.{tree_capacity_lem, zero_roots_from}
use rs_core.Imt.{
  build_parent_level, build_loop, new, new_with_zero, from_leaves, from_leaves_with_zero, is_empty,
}
use rs_core.Imt.Parents.{length-build_parent_level}
use rs_core.Imt.Canonical.{zeroes_of, rows_above, rows_of, tree_of}

module _ {F : Type 0} ⦃fr : Fr F⦄ where
  -- The root of an empty tree.
  empty_root : ℕ → F → F
  empty_root zero z = z
  empty_root (suc d) z = empty_root d (fr.poseidon z z)

  take-zero_roots_from : (d : ℕ) (z : F) → take d (zero_roots_from d z) ≡ zeroes_of d z
  unfolding zero_roots_from zeroes_of
  take-zero_roots_from zero z = refl
  take-zero_roots_from (suc d) z = ap (λ t. z ∷ t) (take-zero_roots_from d (fr.poseidon z z))

  get_elem?-zero_roots_from :
      (d : ℕ) (z : F) → get_elem? (zero_roots_from d z) d ≡ some (empty_root d z)
  unfolding zero_roots_from empty_root
  get_elem?-zero_roots_from zero z = refl
  get_elem?-zero_roots_from (suc d) z = get_elem?-zero_roots_from d (fr.poseidon z z)

  rows_above_empty :
      (d : ℕ) (z : F) → rows_above d z [] ≡ replicate d [] ++ ((empty_root d z ∷ []) ∷ [])
  unfolding rows_above build_parent_level empty_root
  rows_above_empty zero z = refl
  rows_above_empty (suc d) z = ap (λ t. [] ∷ t) (rows_above_empty d (fr.poseidon z z))

  pub new_with_zero-tree_of : (d : ℕ) (z : F) → d < 64 → new_with_zero d z ≡ ok (tree_of d z [])
  unfolding new_with_zero tree_of rows_of
  new_with_zero-tree_of zero z h =
      rw (tree_capacity_lem zero h) (unfold zero_roots_from zeroes_of in refl)
  new_with_zero-tree_of (suc d) z h =
      rw
        (
          tree_capacity_lem (suc d) h,
          index_ok _ (suc d) (get_elem?-zero_roots_from (suc d) z),
          take-zero_roots_from (suc d) z,
        )
        (rw (rows_above_empty (suc d) z) (ground arith))

  build_loop-rows_above :
      (d : ℕ) (z : F) (row : List F)
      → 0 < length row
      → length row ≤ 2 ^ d
      → build_loop d (zeroes_of d z) row ≡ ok (rows_above d z row)
  unfolding build_loop zeroes_of rows_above
  build_loop-rows_above zero z [] p h = absurd (omega arith)
  build_loop-rows_above zero z (a ∷ []) p h = refl
  build_loop-rows_above zero z (a ∷ b ∷ row) p h = absurd (omega arith)
  build_loop-rows_above (suc d) z row p h = rw (
      build_loop-rows_above d (fr.poseidon z z) (build_parent_level row z)
        (omega (arith, length-build_parent_level row z))
        (omega (arith, length-build_parent_level row z, pow_double d)))

  build_loop-rows_of :
      (d : ℕ) (z : F) (leaves : List F)
      → 0 < length leaves
      → length leaves ≤ 2 ^ d
      → build_loop d (zeroes_of d z) leaves ≡ ok (rows_of d z leaves)
  unfolding rows_of
  build_loop-rows_of zero z leaves p h = unfold build_loop in refl
  build_loop-rows_of (suc d) z leaves p h = build_loop-rows_above (suc d) z leaves p h

  -- At a depth below 64, `from_leaves_with_zero` gives the tree of the leaves when they fit, and
  -- panics when they do not.
  pub from_leaves_with_zero-tree_of :
      (d : ℕ) (z : F) (leaves : List F)
      → d < 64
      → from_leaves_with_zero d z leaves
        ≡ (if leb (length leaves) (2 ^ d) then ok (tree_of d z leaves) else panic)
  unfolding from_leaves_with_zero
  from_leaves_with_zero-tree_of d z [] h =
      rw (tree_capacity_lem d h)
        (rw (new_with_zero-tree_of d z h) (unfold is_empty in ground arith))
  from_leaves_with_zero-tree_of d z (a ∷ leaves) h =
      rw (tree_capacity_lem d h) (elim (Bool-cases (leb (suc (length leaves)) (2 ^ d))) [
        | inl room ↦
            rw (room, new_with_zero-tree_of d z h)
              (unfold is_empty tree_of in
                rw (build_loop-rows_of d z (a ∷ leaves) (omega arith) (ground arith)) refl)
        | inr full ↦ rw full
      ])

  pub from_leaves-tree_of :
      (d : ℕ) (leaves : List F)
      → d < 64
      → from_leaves d leaves
        ≡ (if leb (length leaves) (2 ^ d) then ok (tree_of d fr.zero leaves) else panic)
  unfolding from_leaves
  from_leaves-tree_of d leaves h = from_leaves_with_zero-tree_of d fr.zero leaves h

  pub new-tree_of : (d : ℕ) → d < 64 → new d ≡ ok (tree_of d fr.zero [])
  unfolding new
  new-tree_of d h = new_with_zero-tree_of d fr.zero h
