-- ===== src/Imt/InsertMany.antt =====
-- Appending a batch: `Imt::insert_many`.
use rs_core.Prelude.{
  ℕ, zero, suc, ◌+◌, ◌-◌, ◌*◌, ◌/◌, ◌^◌, ◌≤◌, ◌<◌, ◌≡◌, refl, sym, ap, ◌∙◌, List, [], ◌∷◌, ◌++◌,
  arith, length, take, drop, length-append, length-take, leb, lt→ltb, le→ltb, le→leb, if◌then◌else◌,
  Bool-cases, inl, inr, take-append, take-append-drop, take-take, append-nil,
}
use rs_core.Prelude.Halves.{pow_double, half-lt-pow}
use rs_core.Outcome.{ok, err, tree_full}
use rs_core.Field.{Fr}
use rs_core.Geometry.{tree_capacity_lem}
use rs_core.Imt.{build_parent_level, insert_many_loop, insert_many, is_empty}
use rs_core.Imt.Parents.{build_parent_level-cut, take-build_parent_level, length-build_parent_level}
use rs_core.Imt.Canonical.{
  zeroes_of, rows_above, rows_of, tree_of, leaf_count-tree_of, bottom, rows_above-bottom,
  rows_of-bottom,
}

module _ {F : Type 0} ⦃fr : Fr F⦄ where
  -- Rows that agree before an even place have parents that agree before its half.
  parents_agree :
      (old new : List F) (k : ℕ) (z : F)
      → 2 * k ≤ length old
      → 2 * k ≤ length new
      → take (2 * k) old ≡ take (2 * k) new
      → take k (build_parent_level old z) ≡ take k (build_parent_level new z)
  parents_agree old new k z h h' e =
      ap (λ row. take k (build_parent_level row z)) (sym (take-append-drop (2 * k) old))
      ∙ take-build_parent_level (take (2 * k) old) (drop (2 * k) old) k z
          (omega (arith, length-take (2 * k) old))
      ∙ ap (λ row. take k (build_parent_level row z)) e
      ∙ sym (
          take-build_parent_level (take (2 * k) new) (drop (2 * k) new) k z
            (omega (arith, length-take (2 * k) new)))
      ∙ ap (λ row. take k (build_parent_level row z)) (take-append-drop (2 * k) new)

  agree_below :
      (old row : List F) {k first : ℕ}
      → take first old ≡ take first row
      → k ≤ first
      → take k old ≡ take k row
  agree_below old row {k = k} {first = first} e h =
      sym (take-take k first old h) ∙ ap (take k) e ∙ take-take k first row h

  take-bottom :
      (d : ℕ) (z : F) (row : List F) (k : ℕ) → k < 2 ^ d → take k (bottom d z row) ≡ take k row
  take-bottom zero z row zero h = refl
  take-bottom zero z row (suc k) h = absurd (omega arith)
  take-bottom (suc d) z row k h = refl

  -- `row.truncate(first); row.extend(parents)` gives the parents of the new row.
  extended_row :
      (d : ℕ) (z : F) (old row : List F) (first : ℕ)
      → first ≤ length old
      → first < length row
      → length row ≤ 2 ^ suc d
      → take first old ≡ take first row
      → take (first / 2) (bottom d (fr.poseidon z z) (build_parent_level old z))
          ++ build_parent_level (drop (2 * (first / 2)) row) z
        ≡ build_parent_level row z
  extended_row d z old row first h p k e =
      rw
        (take-bottom d (fr.poseidon z z) (build_parent_level old z) (first / 2)
          (half-lt-pow d first (omega arith)))
        (rw
          (parents_agree old row (first / 2) z (omega arith) (omega arith)
            (agree_below old row e (omega arith)))
          (sym (build_parent_level-cut row (first / 2) z (omega arith))))

  -- `row` is already the new row, which keeps the nodes before `first` of the old one.
  insert_many_loop-rows_above :
      (d : ℕ) (z : F) (old row : List F) (first : ℕ)
      → first ≤ length old
      → first < length row
      → length row ≤ 2 ^ d
      → take first old ≡ take first row
      → insert_many_loop d (zeroes_of d z) row (drop 1 (rows_above d z old)) first
        ≡ ok (rows_above d z row)
  unfolding insert_many_loop zeroes_of rows_above
  insert_many_loop-rows_above zero z old [] first h p k e = absurd (omega arith)
  insert_many_loop-rows_above zero z old (a ∷ []) first h p k e = refl
  insert_many_loop-rows_above zero z old (a ∷ b ∷ row) first h p k e = absurd (omega arith)
  insert_many_loop-rows_above (suc d) z old row first h p k e =
      rw (rows_above-bottom d (fr.poseidon z z) (build_parent_level old z)) (
        rw (le→leb (2 * (first / 2)) (length row) (omega arith)) (
          rw (extended_row d z old row first h p k e) (
            rw (
              insert_many_loop-rows_above d (fr.poseidon z z) (build_parent_level old z)
                (build_parent_level row z) (first / 2)
                (omega (arith, length-build_parent_level old z))
                (omega (arith, length-build_parent_level row z))
                (omega (arith, length-build_parent_level row z, pow_double d))
                (parents_agree old row (first / 2) z (omega arith) (omega arith)
                  (agree_below old row e (omega arith)))))))

  insert_many_loop-rows_of :
      (d : ℕ) (z : F) (leaves more : List F)
      → 0 < length more
      → length leaves + length more ≤ 2 ^ d
      → insert_many_loop d
          (zeroes_of d z)
          (leaves ++ more)
          (drop 1 (rows_above d z leaves))
          (length leaves)
        ≡ ok (rows_of d z (leaves ++ more))
  unfolding rows_of
  insert_many_loop-rows_of zero z leaves more h k = unfold insert_many_loop rows_above in refl
  insert_many_loop-rows_of (suc d) z leaves more h k =
      insert_many_loop-rows_above (suc d) z leaves (leaves ++ more) (length leaves) (omega arith)
        (omega (arith, length-append leaves more)) (omega (arith, length-append leaves more))
        (sym (take-append leaves more (length leaves) (omega arith)))

  -- At a depth below 64 and on a tree of leaves that fit, `insert_many` appends all leaves or
  -- none: it gives the tree of both lists, or `TreeFull` when they do not fit together.
  pub insert_many-tree_of :
      (d : ℕ) (z : F) (leaves more : List F)
      → d < 64
      → length leaves ≤ 2 ^ d
      → insert_many (tree_of d z leaves) more ≡ (
          if leb (length leaves + length more) (2 ^ d)
          then ok (tree_of d z (leaves ++ more))
          else err (tree_full d))
  unfolding insert_many tree_of is_empty
  insert_many-tree_of d z leaves [] h k =
      rw (leaf_count-tree_of d z leaves, tree_capacity_lem d h, append-nil) (ground arith)
  insert_many-tree_of d z leaves (a ∷ more) h k =
      rw (leaf_count-tree_of d z leaves, tree_capacity_lem d h)
        (elim (Bool-cases (leb (length leaves + suc (length more)) (2 ^ d))) [
          | inl room ↦
              rw
                (
                  room,
                  le→ltb (2 ^ d - length leaves) (suc (length more)) (ground arith),
                  rows_of-bottom d z leaves,
                )
                (rw (
                  leaf_count-tree_of d z leaves,
                  insert_many_loop-rows_of d z leaves (a ∷ more) (omega arith) (ground arith),
                ))
          | inr full ↦ rw (full, lt→ltb (2 ^ d - length leaves) (suc (length more)) (ground arith))
        ])
