-- ===== src/Proof/Paths.antt =====
-- What `verify_path` and `verify_proof_at_depth` accept: the Merkle path of a leaf, and, short of a
-- hash collision, nothing else.
use rs_core.Prelude.{
  ℕ, zero, suc, ◌/◌, ◌%◌, ◌^◌, ◌<◌, ◌≡◌, ◌≢◌, refl, ap, ap₂, ◌∙◌, ◌⊎◌, inl, inr, List, [], ◌∷◌,
  true, false, arith, length, ◌==◌, if◌then◌else◌, Bool-cases,
}
use rs_core.Prelude.Halves.{half-lt-pow, pow_double}
use rs_core.Field.{Fr, same}
use rs_core.Geometry.{tree_capacity, tree_capacity_lem}
use rs_core.Merkle.{pairs, subtree, merkle_path, other}
use rs_core.Proof.{InclusionProof, hash_path, verify_path, verify_proof_at_depth}

module _ {F : Type 0} ⦃fr : Fr F⦄ where
  pub same_refl : (a : F) → same a a ≡ true
  same_refl a = elim (fr.eq a a) as (λ d. (elim d [ yes _ ↦ true | no _ ↦ false ]) ≡ true) [
    | yes _ ↦ refl
    | no n ↦ absurd (n refl)
  ]

  pub eq_of_same : (a b : F) → same a b ≡ true → a ≡ b
  eq_of_same a b =
      elim (fr.eq a b) as (λ d. (elim d [ yes _ ↦ true | no _ ↦ false ]) ≡ true → a ≡ b) [
        | yes e ↦ λ _. e
        | no n ↦ λ h. cc
      ]

  pub length-merkle_path : (d : ℕ) (f : ℕ → F) (i : ℕ) → length (merkle_path d f i) ≡ d
  unfolding merkle_path
  length-merkle_path zero f i = refl
  length-merkle_path (suc d) f i = ap suc (length-merkle_path d (pairs f) (i / 2))

  -- One step up: a node and its sibling hash to the node above.
  path_step :
      (f : ℕ → F) (i : ℕ)
      → (if i % 2 == 0 then fr.poseidon (f i) (f (other i)) else fr.poseidon (f (other i)) (f i))
        ≡ pairs f (i / 2)
  unfolding other
  path_step f i = elim (Bool-cases (i % 2 == 0)) [
    | inl even ↦ rw even (ap₂ fr.poseidon (ap f (ground arith)) (ap f (ground arith)))
    | inr odd ↦ rw odd (ap₂ fr.poseidon (ap f (ground arith)) (ap f (ground arith)))
  ]

  -- The Merkle path of a place hashes its node to the root.
  pub hash_path-merkle_path :
      (d : ℕ) (f : ℕ → F) (i : ℕ)
      → i < 2 ^ d
      → hash_path (f i) i (merkle_path d f i) ≡ (subtree d f 0, 0)
  unfolding hash_path merkle_path subtree
  hash_path-merkle_path zero f zero h = refl
  hash_path-merkle_path zero f (suc i) h = absurd (omega arith)
  hash_path-merkle_path (suc d) f i h =
      ap (λ node. hash_path node (i / 2) (merkle_path d (pairs f) (i / 2))) (path_step f i)
      ∙ hash_path-merkle_path d (pairs f) (i / 2) (half-lt-pow d i h)

  -- The hash of a node at place `i` with its sibling.
  unfoldable pub parent : F → F → ℕ → F
  parent node s i = if i % 2 == 0 then fr.poseidon node s else fr.poseidon s node

  -- On the way up from `node` at place `i`, some node is not the one of the tree over `f` at its
  -- place, and yet hashes with its sibling to the tree's node above.
  pub data PathCollision : (ℕ → F) → F → ℕ → List F → Type 0 where
    here :
        (f : ℕ → F) (node s : F) (i : ℕ) (siblings : List F)
        → node ≢ f i
        → parent node s i ≡ pairs f (i / 2)
        → PathCollision f node i (s ∷ siblings)
    above :
        (f : ℕ → F) (node s : F) (i : ℕ) (siblings : List F)
        → PathCollision (pairs f) (parent node s i) (i / 2) siblings
        → PathCollision f node i (s ∷ siblings)

  -- A path of `d` siblings that ends in the root of `f` with the index used up starts from the node
  -- at that index, unless it shows a collision.
  hash_path_sound :
      (d : ℕ) (f : ℕ → F) (node : F) (i : ℕ) (siblings : List F)
      → length siblings ≡ d
      → hash_path node i siblings ≡ (subtree d f 0, 0)
      → ((node ≡ f i) × (i < 2 ^ d)) ⊎ PathCollision f node i siblings
  unfolding hash_path subtree parent
  hash_path_sound zero f node i [] h e = inl (ground arith, ground arith)
  hash_path_sound zero f node i (s ∷ siblings) h e = absurd (omega arith)
  hash_path_sound (suc d) f node i [] h e = absurd (omega arith)
  hash_path_sound (suc d) f node i (s ∷ siblings) h e =
      elim (hash_path_sound d (pairs f) (parent node s i) (i / 2) siblings (omega arith) e) [
        | inl (up, k) ↦ elim (fr.eq node (f i)) [
          | yes e' ↦ inl (e', omega (arith, pow_double d))
          | no n ↦ inr (here f node s i siblings n up)
        ]
        | inr c ↦ inr (above f node s i siblings c)
      ]

  -- The proof of place `i` in a tree of depth `d` over the leaves `f`.
  abbrev pub proof_of : ℕ → (ℕ → F) → ℕ → InclusionProof F
  proof_of d f i = record {
    leaf = f i;
    index = i;
    siblings = merkle_path d f i;
    root = subtree d f 0;
  }

  pub verify-proof_of :
      (d : ℕ) (f : ℕ → F) (i : ℕ)
      → d < 64
      → i < 2 ^ d
      → verify_proof_at_depth (proof_of d f i) d ≡ true
  unfolding verify_proof_at_depth verify_path
  verify-proof_of d f i h k = ground (
    arith,
    tree_capacity_lem d h,
    length-merkle_path d f i,
    hash_path-merkle_path d f i k,
    same_refl (subtree d f 0),
  )

  verify_parts :
      (p : InclusionProof F) (d : ℕ)
      → verify_proof_at_depth p d ≡ true
      → (d < 64) × (length p.siblings ≡ d) × (hash_path p.leaf p.index p.siblings ≡ (p.root, 0))
  unfolding verify_proof_at_depth verify_path tree_capacity
  verify_parts p d h = ground (arith, eq_of_same (hash_path p.leaf p.index p.siblings).0 p.root)

  -- A proof that passes `verify_proof_at_depth` under the Merkle root of `f` shows the leaf of
  -- `f` at its index, an index of the tree, or on its path a node that is not the tree's hashes
  -- with its sibling to the tree's node above.
  pub verify_sound :
      (d : ℕ) (f : ℕ → F) (p : InclusionProof F)
      → verify_proof_at_depth p d ≡ true
      → p.root ≡ subtree d f 0
      → ((p.leaf ≡ f p.index) × (p.index < 2 ^ d)) ⊎ PathCollision f p.leaf p.index p.siblings
  verify_sound d f p h e =
      let (_, size, path) = verify_parts p d h in
      hash_path_sound d f p.leaf p.index p.siblings size (rw (← e) path)
