-- ===== src/Proof/Examples.antt =====
-- Proofs of a small tree: one that passes, and one that passes by a collision.
use rs_core.Prelude.{ℕ, ℕ_discrete, ◌<◌, ◌^◌, ◌≡◌, ◌⊎◌, refl, true, false, [], ◌∷◌}
use rs_core.Geometry.{tree_capacity}
use rs_core.Merkle.{padded, subtree}
use rs_core.Proof.{InclusionProof, verify_proof_at_depth, verify_path, hash_path}
use rs_core.Proof.Paths.{PathCollision, verify_sound}
use rs_core.Toy.{toy_field, three_leaves}

abbrev second : InclusionProof ℕ
second = record { leaf = 20; index = 1; siblings = 10 ∷ 91 ∷ []; root = 849 }

second_passes : verify_proof_at_depth second 2 ≡ true
unfolding verify_proof_at_depth verify_path hash_path tree_capacity ℕ_discrete
second_passes = refl

second_root : second.root ≡ subtree 2 (padded three_leaves 0) 0
unfolding subtree
second_root = refl

-- A leaf passed off as an internal node has too few siblings.
short_fails :
    verify_proof_at_depth (record second { siblings = 91 ∷ []; index = 0; leaf = 131 }) 2 ≡ false
unfolding verify_proof_at_depth verify_path hash_path tree_capacity ℕ_discrete
short_fails = refl

verify_sound_example :
    ((second.leaf ≡ padded three_leaves 0 second.index) × (second.index < 2 ^ 2))
    ⊎ PathCollision (padded three_leaves 0) second.leaf second.index second.siblings
verify_sound_example = verify_sound 2 (padded three_leaves 0) second second_passes second_root
