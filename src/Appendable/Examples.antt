-- ===== src/Appendable/Examples.antt =====
-- The two implementations of the trait, given the same two batches.
use rs_core.Prelude.{ℕ, ℕ_discrete, ◌≡◌, refl, List, [], ◌∷◌, ◌++◌, arith}
use rs_core.Outcome.{ok, ◌>>=◌}
use rs_core.Merkle.{merkle_root}
use rs_core.Imt
use rs_core.Frontier
use rs_core.Frontier.{NotesFrontier}
use rs_core.Indexed
use rs_core.Indexed.Map.{fresh}
use rs_core.Indexed.Laws.{indexed_of, new-indexed_of, insert_many-indexed_of}
use rs_core.Appendable.Instances.{append_all}
use rs_core.Appendable.Agree.{run_batches, all_leaves, frontier_follows_indexed}
use rs_core.Toy.{toy_field, three_leaves}

abbrev more : List ℕ
more = 40 ∷ 50 ∷ []

abbrev batches : List (List ℕ)
batches = three_leaves ∷ more ∷ []

first_batch : Indexed.insert_many (indexed_of 3 []) three_leaves ≡ ok (indexed_of 3 three_leaves)
unfolding ℕ_discrete fresh
first_batch = insert_many-indexed_of 3 [] three_leaves (omega arith) (omega arith)

second_batch :
    Indexed.insert_many (indexed_of 3 three_leaves) more ≡ ok (indexed_of 3 (three_leaves ++ more))
unfolding ℕ_discrete fresh
second_batch = insert_many-indexed_of 3 three_leaves more (omega arith) (omega arith)

indexed_run :
    (Indexed.new 3 >>= run_batches Indexed.insert_many batches)
    ≡ ok (indexed_of 3 (three_leaves ++ more))
unfolding run_batches
indexed_run = rw (new-indexed_of {F = ℕ} 3 (omega arith), first_batch, second_batch)

frontier_follows_indexed_example :
    (t : NotesFrontier ℕ) × ((Frontier.new 3 1 >>= run_batches append_all batches) ≡ ok t)
    × (Frontier.root t ≡ ok (merkle_root 3 0 (all_leaves batches)))
    × (Indexed.root (indexed_of 3 (three_leaves ++ more))
        ≡ ok (merkle_root 3 0 (all_leaves batches)))
    × (t.leaf_count ≡ Imt.leaf_count (indexed_of 3 (three_leaves ++ more)).tree)
    × (Frontier.next_leaf_frontier t
        ≡ Indexed.next_leaf_frontier (indexed_of 3 (three_leaves ++ more)))
frontier_follows_indexed_example =
    frontier_follows_indexed 3 1 batches (omega arith) refl indexed_run
