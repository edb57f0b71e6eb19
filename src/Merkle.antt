-- ===== src/Merkle.antt =====
-- The abstract view of the trees of crates/core/src/imt.rs: a Merkle tree over a function from
-- places to nodes. What a depth-`d` tree promises is stated with these and nothing of its state.
pub mod Shards
use rs_core.Prelude.{
  ℕ, zero, suc, ◌+◌, ◌-◌, ◌*◌, ◌/◌, ◌%◌, ◌==◌, if◌then◌else◌, List, [], ◌∷◌, get_or, ◌≡◌, refl,
}
use rs_core.Field.{Fr}

-- The leaves of a list, and an empty leaf at each place behind it.
abbrev pub padded {ℓ} : {A : Type ℓ} → List A → A → ℕ → A
padded leaves z i = get_or leaves i z

-- The place of the other child of the same parent.
unfoldable pub other : ℕ → ℕ
other i = i / 2 * 2 + (1 - i % 2)

module _ {F : Type 0} ⦃fr : Fr F⦄ where
  -- The nodes one level up.
  abbrev pub pairs : (ℕ → F) → ℕ → F
  pairs f i = fr.poseidon (f (2 * i)) (f (2 * i + 1))

  -- The root of the `i`-th subtree of height `d` over the nodes `f`.
  unfoldable pub subtree : ℕ → (ℕ → F) → ℕ → F
  subtree zero f i = f i
  subtree (suc d) f i = subtree d (pairs f) i

  unfoldable pub merkle_root : ℕ → F → List F → F
  merkle_root depth z leaves = subtree depth (padded leaves z) 0

  -- The siblings on the way from place `i` to the root, from the bottom up.
  unfoldable pub merkle_path : ℕ → (ℕ → F) → ℕ → List F
  merkle_path zero f i = []
  merkle_path (suc d) f i = f (other i) ∷ merkle_path d (pairs f) (i / 2)

  -- The nodes that a leaf at place `i` finds finished on its left: where the way up turns right,
  -- the node left of it, and the field's zero where it turns left.
  unfoldable pub merkle_frontier : ℕ → (ℕ → F) → ℕ → List F
  merkle_frontier zero f i = []
  merkle_frontier (suc d) f i =
      (if i % 2 == 1 then f (i - 1) else fr.zero) ∷ merkle_frontier d (pairs f) (i / 2)

  -- A subtree is the hash of its two halves.
  pub subtree_split :
      (d : ℕ) (f : ℕ → F) (i : ℕ)
      → subtree (suc d) f i ≡ fr.poseidon (subtree d f (2 * i)) (subtree d f (2 * i + 1))
  unfolding subtree
  subtree_split zero f i = refl
  subtree_split (suc d) f i = subtree_split d (pairs f) i
