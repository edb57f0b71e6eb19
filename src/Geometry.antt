-- ===== src/Geometry.antt =====
-- Capacities and zero roots, the free functions of crates/core/src/imt.rs. `usize` has 64 bits.
mod Examples
use rs_core.Prelude.{
  ℕ, zero, suc, ◌+◌, ◌^◌, ◌<◌, ◌≡◌, arith, lt→ltb, List, [], ◌∷◌, ltb, leb, if◌then◌else◌, take,
  refl, ap, ◌≤◌, Bool-cases, inl, inr,
}
use native.Mathlib.Numerals.{add-one}
use rs_core.Outcome.{Outcome, ok, err, capacity_overflow}
use rs_core.Field.{Fr}

-- `1usize.checked_shl(depth)`: a shift by 64 or more gives `None`.
unfoldable pub tree_capacity : ℕ → Outcome ℕ
tree_capacity depth = if ltb depth 64 then ok (2 ^ depth) else err (capacity_overflow depth)

pub tree_capacity_lem : (depth : ℕ) → depth < 64 → tree_capacity depth ≡ ok (2 ^ depth)
unfolding tree_capacity
tree_capacity_lem depth h = rw (lt→ltb depth 64 h)

-- The capacities that fit `usize` are exactly those of depths below 64.
pub lt_of_tree_capacity : (depth capacity : ℕ) → tree_capacity depth ≡ ok capacity → depth < 64
unfolding tree_capacity
lt_of_tree_capacity depth capacity h = ground arith

module _ {F : Type 0} ⦃fr : Fr F⦄ where
  -- `z[0]`, and each next value the hash of the last with itself
  unfoldable pub zero_roots_from : ℕ → F → List F
  zero_roots_from zero z = z ∷ []
  zero_roots_from (suc d) z = z ∷ zero_roots_from d (fr.poseidon z z)

  -- The table for depth 64 serves every smaller depth by a prefix.
  unfoldable pub zero_roots : ℕ → List F
  zero_roots depth =
      if leb depth 64
      then take (depth + 1) (zero_roots_from 64 fr.zero)
      else zero_roots_from depth fr.zero

  take-zero_roots_from :
      (d m : ℕ) (z : F) → d ≤ m → take (d + 1) (zero_roots_from m z) ≡ zero_roots_from d z
  unfolding zero_roots_from
  take-zero_roots_from zero zero z h = refl
  take-zero_roots_from zero (suc m) z h = refl
  take-zero_roots_from (suc d) zero z h = absurd (omega arith)
  take-zero_roots_from (suc d) (suc m) z h = rw (add-one (suc d)) (
      ap (λ t. z ∷ t)
        (rw (add-one d) at (take-zero_roots_from d m (fr.poseidon z z) (omega arith))))

  -- At every depth `zero_roots`, which serves depths up to 64 from one table, gives the zero
  -- roots of the recurrence `zero_roots_from`.
  pub zero_roots_lem : (depth : ℕ) → zero_roots depth ≡ zero_roots_from depth fr.zero
  unfolding zero_roots
  zero_roots_lem depth = elim (Bool-cases (leb depth 64)) [
    | inl cached ↦ rw cached (take-zero_roots_from depth 64 fr.zero (ground arith))
    | inr deep ↦ rw deep
  ]
