-- ===== src/Indexed/Examples.antt =====
-- `IndexedMerkleTree` on small trees, and its theorems at inputs where their hypotheses hold.
use rs_core.Prelude.{get_elem?, some, ℕ, ℕ_discrete, ◌≡◌, ◌⊎◌, refl, true, false, [], ◌∷◌, arith}
use rs_core.Outcome.{ok, err, duplicate_leaf, leaf_not_found}
use rs_core.Proof.{InclusionProof, verify_proof_at_depth}
use rs_core.Merkle.{merkle_root}
use rs_core.Indexed
use rs_core.Indexed.{IndexedMerkleTree}
use rs_core.Indexed.Map.{contains, fresh}
use rs_core.Indexed.Laws.{
  indexed_of, insert-indexed_of, insert_many-indexed_of, create_proof-indexed_of,
}
use rs_core.Toy.{toy_field, three_leaves}

insert-indexed_of_example : Indexed.insert (indexed_of 2 three_leaves) 20 ≡ err duplicate_leaf
unfolding ℕ_discrete
insert-indexed_of_example = insert-indexed_of 2 three_leaves 20 (omega arith)

-- The batch repeats a leaf of its own.
insert_many-indexed_of_example :
    Indexed.insert_many (indexed_of 3 three_leaves) (40 ∷ 40 ∷ []) ≡ err duplicate_leaf
unfolding ℕ_discrete fresh
insert_many-indexed_of_example =
    insert_many-indexed_of 3 three_leaves (40 ∷ 40 ∷ []) (omega arith) (omega arith)

three_fresh : fresh [] three_leaves ≡ true
unfolding ℕ_discrete fresh
three_fresh = refl

create_proof-indexed_of_example :
    ((contains three_leaves 20 ≡ false)
      × (Indexed.create_proof (indexed_of 2 three_leaves) 20 ≡ err leaf_not_found))
    ⊎ ((contains three_leaves 20 ≡ true)
        × ((p : InclusionProof ℕ) × (Indexed.create_proof (indexed_of 2 three_leaves) 20 ≡ ok p)
            × (p.leaf ≡ 20)
            × (get_elem? three_leaves p.index ≡ some 20)
            × (p.root ≡ merkle_root 2 0 three_leaves)
            × (verify_proof_at_depth p 2 ≡ true)))
create_proof-indexed_of_example =
    create_proof-indexed_of 2 three_leaves 20 (omega arith) (omega arith)
