-- ===== src/Frontier/Canonical.antt =====
-- The frontier that a list of leaves stands for: the slot of a set bit of the leaf count holds the
-- root of the finished subtree that the bit counts, every other slot is empty.
use rs_core.Prelude.{
  ℕ, zero, suc, ◌+◌, ◌-◌, ◌*◌, ◌/◌, ◌%◌, ◌^◌, ◌<◌, ◌≡◌, refl, sym, ap, ap₂, List, [], ◌∷◌, ◌++◌,
  Option, none, some, arith, length, replicate, get_or-append_left, ◌==◌, if◌then◌else◌, Bool-cases,
  inl, inr,
}
use rs_core.Field.{Fr}
use rs_core.Geometry.{zero_roots_from}
use rs_core.Merkle.{padded, pairs}
use rs_core.Frontier.{NotesFrontier}

-- Two levels of nodes agree below place `n`.
abbrev pub Agree : {F : Type 0} → ℕ → (ℕ → F) → (ℕ → F) → Type 0
Agree n f g = (i : ℕ) → i < n → f i ≡ g i

module _ {F : Type 0} ⦃fr : Fr F⦄ where
  unfoldable pub slots_of : ℕ → (ℕ → F) → ℕ → List (Option F)
  slots_of zero f n = []
  slots_of (suc k) f n =
      (if n % 2 == 1 then some (f (n - 1)) else none) ∷ slots_of k (pairs f) (n / 2)

  unfoldable pub frontier_of : ℕ → ℕ → List F → NotesFrontier F
  frontier_of depth shard_height leaves = record {
    depth = depth;
    shard_height = shard_height;
    shard_size = 2 ^ shard_height;
    leaf_count = length leaves;
    frontier = slots_of (depth + 1) (padded leaves fr.zero) (length leaves);
    zeroes = zero_roots_from depth fr.zero;
  }

  pub Agree-pairs : (n : ℕ) (f g : ℕ → F) → Agree n f g → Agree (n / 2) (pairs f) (pairs g)
  Agree-pairs n f g h i k = ap₂ fr.poseidon (h (2 * i) (omega arith)) (h (2 * i + 1) (omega arith))

  pub slots_of-Agree : (k : ℕ) (f g : ℕ → F) (n : ℕ) → Agree n f g → slots_of k f n ≡ slots_of k g n
  unfolding slots_of
  slots_of-Agree zero f g n h = refl
  slots_of-Agree (suc k) f g n h = elim (Bool-cases (n % 2 == 1)) [
    | inl odd ↦ rw (
      odd,
      h (n - 1) (ground arith),
      slots_of-Agree k (pairs f) (pairs g) (n / 2) (Agree-pairs n f g h),
    )
    | inr even ↦ rw (even, slots_of-Agree k (pairs f) (pairs g) (n / 2) (Agree-pairs n f g h))
  ]

  pub slots_of_empty : (k : ℕ) (f : ℕ → F) → slots_of k f 0 ≡ replicate k none
  unfolding slots_of
  slots_of_empty zero f = refl
  slots_of_empty (suc k) f = ap (λ t. none ∷ t) (slots_of_empty k (pairs f))

  pub padded-append :
      (leaves more : List F) (z : F)
      → Agree (length leaves) (padded leaves z) (padded (leaves ++ more) z)
  padded-append leaves more z i h = sym (get_or-append_left leaves more i z h)

  pub depth-frontier_of : (d sh : ℕ) (leaves : List F) → (frontier_of d sh leaves).depth ≡ d
  unfolding frontier_of
  depth-frontier_of d sh leaves = refl

  pub leaf_count-frontier_of :
      (d sh : ℕ) (leaves : List F) → (frontier_of d sh leaves).leaf_count ≡ length leaves
  unfolding frontier_of
  leaf_count-frontier_of d sh leaves = refl
