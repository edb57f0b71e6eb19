-- ===== src/Imt/Canonical.antt =====
-- The tree that a list of leaves stands for, row by row: the representation that `Imt` keeps.
use rs_core.Prelude.{
  ℕ, zero, suc, ◌^◌, ◌≤◌, ◌<◌, ◌≡◌, refl, List, [], ◌∷◌, arith, length, get_elem?, get_or, drop,
}
use rs_core.Field.{Fr}
use rs_core.Imt.{Imt, build_parent_level, first_row, leaf, leaf_count}

module _ {F : Type 0} ⦃fr : Fr F⦄ where
  unfoldable pub zeroes_of : ℕ → F → List F
  zeroes_of zero z = []
  zeroes_of (suc d) z = z ∷ zeroes_of d (fr.poseidon z z)

  -- The rows above the leaves. The top one is the root, also of an empty tree.
  unfoldable pub rows_above : ℕ → F → List F → List (List F)
  rows_above zero z row = (get_or row 0 z ∷ []) ∷ []
  rows_above (suc d) z row = row ∷ rows_above d (fr.poseidon z z) (build_parent_level row z)

  unfoldable pub rows_of : ℕ → F → List F → List (List F)
  rows_of zero z leaves = leaves ∷ []
  rows_of (suc d) z leaves = rows_above (suc d) z leaves

  unfoldable pub tree_of : ℕ → F → List F → Imt F
  tree_of depth z leaves = record {
    depth = depth;
    zero_leaf = z;
    zeroes = zeroes_of depth z;
    nodes = rows_of depth z leaves;
  }

  pub first_row-rows_of :
      (d : ℕ) (z : F) (leaves : List F) → first_row (rows_of d z leaves) ≡ leaves
  unfolding rows_of rows_above
  first_row-rows_of zero z leaves = refl
  first_row-rows_of (suc d) z leaves = refl

  pub leaf_count-tree_of :
      (d : ℕ) (z : F) (leaves : List F) → leaf_count (tree_of d z leaves) ≡ length leaves
  unfolding leaf_count tree_of rows_of rows_above
  leaf_count-tree_of zero z leaves = refl
  leaf_count-tree_of (suc d) z leaves = refl

  -- The lowest of the rows above: the row itself, but at the top its first node alone.
  abbrev pub bottom : ℕ → F → List F → List F
  bottom zero z row = get_or row 0 z ∷ []
  bottom (suc d) z row = row

  pub rows_above-bottom :
      (d : ℕ) (z : F) (row : List F)
      → rows_above d z row ≡ bottom d z row ∷ drop 1 (rows_above d z row)
  unfolding rows_above
  rows_above-bottom zero z row = refl
  rows_above-bottom (suc d) z row = refl

  pub bottom-full :
      (d : ℕ) (z : F) (row : List F) → 0 < length row → length row ≤ 2 ^ d → bottom d z row ≡ row
  bottom-full zero z [] h k = absurd (omega arith)
  bottom-full zero z (a ∷ []) h k = refl
  bottom-full zero z (a ∷ b ∷ row) h k = absurd (omega arith)
  bottom-full (suc d) z row h k = refl

  pub rows_of-bottom :
      (d : ℕ) (z : F) (leaves : List F)
      → rows_of d z leaves ≡ leaves ∷ drop 1 (rows_above d z leaves)
  unfolding rows_of rows_above
  rows_of-bottom zero z leaves = refl
  rows_of-bottom (suc d) z leaves = refl

  pub depth-tree_of : (d : ℕ) (z : F) (leaves : List F) → (tree_of d z leaves).depth ≡ d
  unfolding tree_of
  depth-tree_of d z leaves = refl

  pub leaves-tree_of :
      (d : ℕ) (z : F) (leaves : List F) → first_row (tree_of d z leaves).nodes ≡ leaves
  unfolding tree_of
  leaves-tree_of d z leaves = first_row-rows_of d z leaves

  pub leaf-tree_of :
      (d : ℕ) (z : F) (leaves : List F) (i : ℕ) → leaf (tree_of d z leaves) i ≡ get_elem? leaves i
  unfolding leaf
  leaf-tree_of d z leaves i = rw (leaves-tree_of d z leaves)
