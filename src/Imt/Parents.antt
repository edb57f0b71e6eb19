-- ===== src/Imt/Parents.antt =====
-- What `build_parent_level` computes, and how it meets writes and appends.
use rs_core.Prelude.{
  ℕ, zero, suc, ◌+◌, ◌-◌, ◌*◌, ◌/◌, ◌%◌, ◌≤◌, ◌<◌, ◌≡◌, refl, ap, List, [], ◌∷◌, ◌++◌, arith,
  length, get_or, set, take, drop,
}
use rs_core.Field.{Fr}
use rs_core.Merkle.{padded, pairs}
use rs_core.Imt.{build_parent_level, hash_pair}

pub half_step : (i : ℕ) → suc (suc i) / 2 ≡ suc (i / 2)
half_step i = omega arith

pub even_step : (i : ℕ) → suc (suc i) - suc (suc i) % 2 ≡ suc (suc (i - i % 2))
even_step i = omega arith

double_step : (i : ℕ) → 2 * suc i ≡ suc (suc (2 * i))
double_step i = omega arith

add_step : (i : ℕ) → suc (suc i) + 1 ≡ suc (suc (i + 1))
add_step i = omega arith

module _ {F : Type 0} ⦃fr : Fr F⦄ where
  pub length-build_parent_level :
      (row : List F) (z : F) → length (build_parent_level row z) ≡ (length row + 1) / 2
  unfolding build_parent_level
  length-build_parent_level [] z = omega arith
  length-build_parent_level (a ∷ []) z = omega arith
  length-build_parent_level (a ∷ b ∷ row) z = omega (arith, length-build_parent_level row z)

  -- Each parent is the hash of its two children, absent ones read as the level's zero.
  pub get_or-build_parent_level :
      (row : List F) (z : F) (i : ℕ)
      → get_or (build_parent_level row z) i (fr.poseidon z z) ≡ pairs (padded row z) i
  unfolding build_parent_level
  get_or-build_parent_level [] z i = refl
  get_or-build_parent_level (a ∷ []) z zero = refl
  get_or-build_parent_level (a ∷ []) z (suc i) = ground (arith, double_step i)
  get_or-build_parent_level (a ∷ b ∷ row) z zero = refl
  get_or-build_parent_level (a ∷ b ∷ row) z (suc i) =
      ground (arith, double_step i, get_or-build_parent_level row z i)

  pub hash_pair_step :
      (a b : F) (row : List F) (i : ℕ) (z : F)
      → hash_pair (a ∷ b ∷ row) (suc (suc i)) z ≡ hash_pair row i z
  unfolding hash_pair
  hash_pair_step a b row i z = ground (arith, even_step i, add_step (i - i % 2))

  -- The parents of a row that ends in a new node: the old ones before it, and its own.
  pub build_parent_level-last :
      (row : List F) (i : ℕ) (node z : F)
      → i ≤ length row
      → build_parent_level (take i row ++ (node ∷ [])) z
        ≡ take (i / 2) (build_parent_level row z)
          ++ (hash_pair (take i row ++ (node ∷ [])) i z ∷ [])
  unfolding build_parent_level
  build_parent_level-last row zero node z h = unfold hash_pair in refl
  build_parent_level-last [] (suc i) node z h = absurd (omega arith)
  build_parent_level-last (a ∷ row) (suc zero) node z h = unfold hash_pair in refl
  build_parent_level-last (a ∷ []) (suc (suc i)) node z h = absurd (omega arith)
  build_parent_level-last (a ∷ b ∷ row) (suc (suc i)) node z h =
      rw (half_step i, hash_pair_step)
        (ap (λ t. fr.poseidon a b ∷ t) (build_parent_level-last row i node z (omega arith)))

  -- A write at `i` changes the parent of `i` alone.
  pub build_parent_level-set :
      (row : List F) (i : ℕ) (node z : F)
      → i < length row
      → build_parent_level (set row i node) z
        ≡ set (build_parent_level row z) (i / 2) (hash_pair (set row i node) i z)
  unfolding build_parent_level
  build_parent_level-set [] i node z h = absurd (omega arith)
  build_parent_level-set (a ∷ []) zero node z h = unfold hash_pair in refl
  build_parent_level-set (a ∷ []) (suc i) node z h = absurd (omega arith)
  build_parent_level-set (a ∷ b ∷ row) zero node z h = unfold hash_pair in refl
  build_parent_level-set (a ∷ b ∷ row) (suc zero) node z h = unfold hash_pair in refl
  build_parent_level-set (a ∷ b ∷ row) (suc (suc i)) node z h =
      rw (half_step i, hash_pair_step)
        (ap (λ t. fr.poseidon a b ∷ t) (build_parent_level-set row i node z (omega arith)))

  -- The parents of the part from an even place on are the parents from half that place on.
  pub build_parent_level-cut :
      (row : List F) (k : ℕ) (z : F)
      → 2 * k ≤ length row
      → build_parent_level row z
        ≡ take k (build_parent_level row z) ++ build_parent_level (drop (2 * k) row) z
  unfolding build_parent_level
  build_parent_level-cut row zero z h = refl
  build_parent_level-cut [] (suc k) z h = absurd (omega arith)
  build_parent_level-cut (a ∷ []) (suc k) z h = absurd (omega arith)
  build_parent_level-cut (a ∷ b ∷ row) (suc k) z h =
      rw (double_step k)
        (ap (λ t. fr.poseidon a b ∷ t) (build_parent_level-cut row k z (omega arith)))

  -- Parents before half of an even place depend only on the nodes before that place.
  pub take-build_parent_level :
      (row more : List F) (k : ℕ) (z : F)
      → 2 * k ≤ length row
      → take k (build_parent_level (row ++ more) z) ≡ take k (build_parent_level row z)
  unfolding build_parent_level
  take-build_parent_level row more zero z h = refl
  take-build_parent_level [] more (suc k) z h = absurd (omega arith)
  take-build_parent_level (a ∷ []) more (suc k) z h = absurd (omega arith)
  take-build_parent_level (a ∷ b ∷ row) more (suc k) z h =
      ap (λ t. fr.poseidon a b ∷ t) (take-build_parent_level row more k z (omega arith))
