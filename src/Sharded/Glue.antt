-- ===== src/Sharded/Glue.antt =====
-- Two parts of a path, below and above the cut of the tree, make one path.
use rs_core.Prelude.{
  ℕ, ◌+◌, ◌-◌, ◌*◌, ◌/◌, ◌%◌, ◌^◌, ◌<◌, ◌≡◌, refl, sym, ap, ◌∙◌, List, [], ◌∷◌, ◌++◌, true, arith,
  length, length-append, ◌==◌, if◌then◌else◌, eq→==,
}
use native.Mathlib.Nat.{div-div-eq-div-mul, div-add-mod, mod-eq-sub-mul-div, lt_of_mul-lt-mul_right}
use rs_core.Prelude.Halves.{pow_pos, pow_cut, pow_double, half-div_pow}
use rs_core.Field.{Fr}
use rs_core.Geometry.{tree_capacity_lem}
use rs_core.Merkle.{padded, merkle_root, merkle_path}
use rs_core.Merkle.Shards.{subtree_cut}
use rs_core.Proof.{hash_path, verify_path, verify_proof_at_depth}
use rs_core.Proof.Paths.{same_refl, hash_path-merkle_path, length-merkle_path}
use rs_core.Sharded.Canonical.{shard}

-- Halving and the low bits of a place.
mod_half : (i m : ℕ) → 0 < m → (i % (2 * m)) / 2 ≡ (i / 2) % m
mod_half i m h = omega (
  arith,
  mod-eq-sub-mul-div i (2 * m),
  mod-eq-sub-mul-div (i / 2) m,
  ap (λ (k : ℕ). m * k) (div-div-eq-div-mul i 2 m),
)

mod_parity : (i m : ℕ) → (i % (2 * m)) % 2 ≡ i % 2
mod_parity i m = omega (arith, mod-eq-sub-mul-div i (2 * m))

shard_inside : (d sh place : ℕ) → sh < d → place < 2 ^ d → place / 2 ^ sh < 2 ^ (d - sh)
shard_inside d sh place cut inside =
    lt_of_mul-lt-mul_right (2 ^ sh)
      (omega (arith, pow_cut d (d - sh) sh (omega arith), div-add-mod place (2 ^ sh)))

module _ {F : Type 0} ⦃fr : Fr F⦄ where
  -- Two parts of a path, one after the other.
  hash_path-append :
      (node : F) (i : ℕ) (s s' : List F)
      → hash_path node i (s ++ s') ≡ hash_path (hash_path node i s).0 (hash_path node i s).1 s'
  unfolding hash_path
  hash_path-append node i [] s' = refl
  hash_path-append node i (x ∷ s) s' =
      hash_path-append (if i % 2 == 0 then fr.poseidon node x else fr.poseidon x node) (i / 2) s s'

  -- A path reads as many low bits of the place as it has nodes, and leaves the others.
  pub hash_path_low :
      (node : F) (i : ℕ) (s : List F)
      → hash_path node i s ≡ ((hash_path node (i % 2 ^ length s) s).0, i / 2 ^ length s)
  unfolding hash_path
  hash_path_low node i [] = (let one : i / 1 ≡ i = omega arith in rw one)
  hash_path_low node i (x ∷ s) =
      let up = (if i % 2 == 0 then fr.poseidon node x else fr.poseidon x node) in
      hash_path_low up (i / 2) s
      ∙ rw (
        ← half-div_pow i (length s),
        pow_double (length s),
        mod_half i (2 ^ length s) (pow_pos (length s)),
        mod_parity i (2 ^ length s),
        hash_path,
      )

  -- A path to a shard's root and the shard's path in the cap lead to the root of the whole tree.
  glued_path :
      (d sh : ℕ) (leaves : List F) (id : F) (place : ℕ) (s : List F)
      → sh < d
      → place < 2 ^ d
      → length s ≡ sh
      → hash_path id (place % 2 ^ sh) s ≡ (shard sh leaves (place / 2 ^ sh), 0)
      → hash_path id place (s ++ merkle_path (d - sh) (shard sh leaves) (place / 2 ^ sh))
        ≡ (merkle_root d fr.zero leaves, 0)
  unfolding merkle_root
  glued_path d sh leaves id place s cut inside size h =
      let cap = merkle_path (d - sh) (shard sh leaves) (place / 2 ^ sh) in
      let low : hash_path id place s ≡ (shard sh leaves (place / 2 ^ sh), place / 2 ^ sh) =
        hash_path_low id place s ∙ rw (size, h) in
      hash_path-append id place s cap
      ∙ ap (λ (r : F × ℕ). hash_path r.0 r.1 cap) low
      ∙ hash_path-merkle_path (d - sh) (shard sh leaves) (place / 2 ^ sh)
          (shard_inside d sh place cut inside)
      ∙ ap (λ r. (r, 0)) (sym (subtree_cut d sh (d - sh) (padded leaves fr.zero) (omega arith)))

  pub glued_verifies :
      (d sh : ℕ) (leaves : List F) (id : F) (place : ℕ) (s : List F)
      → d < 64
      → sh < d
      → place < 2 ^ d
      → length s ≡ sh
      → hash_path id (place % 2 ^ sh) s ≡ (shard sh leaves (place / 2 ^ sh), 0)
      → verify_proof_at_depth
          (record {
            leaf = id;
            index = place;
            siblings = s ++ merkle_path (d - sh) (shard sh leaves) (place / 2 ^ sh);
            root = merkle_root d fr.zero leaves;
          })
          d
        ≡ true
  unfolding verify_proof_at_depth verify_path
  glued_verifies d sh leaves id place s c cut inside size h =
      rw
        (
          tree_capacity_lem d c,
          length-append s (merkle_path (d - sh) (shard sh leaves) (place / 2 ^ sh)),
          size,
          length-merkle_path (d - sh) (shard sh leaves) (place / 2 ^ sh),
          eq→== (sh + (d - sh)) d (omega arith),
          glued_path d sh leaves id place s cut inside size h,
          eq→== 0 0 refl,
          verify_proof_at_depth,
          verify_path,
        )
        (same_refl (merkle_root d fr.zero leaves))
