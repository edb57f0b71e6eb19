-- ===== src/Frontier/Examples.antt =====
-- `NotesFrontier` on small trees, and its theorems at inputs where their hypotheses hold.
use rs_core.Prelude.{ℕ, ◌≡◌, refl, true, List, [], ◌∷◌, ◌++◌, some, arith}
use rs_core.Outcome.{ok, ◌>>=◌}
use rs_core.Geometry.{tree_capacity, zero_roots, zero_roots_from}
use rs_core.Merkle.{padded, merkle_root, merkle_path, subtree}
use rs_core.Proof.{verify_proof_at_depth}
use rs_core.Frontier
use rs_core.Frontier.{NotesFrontier, CompletedShard, FrontierAppend}
use rs_core.Frontier.Canonical.{frontier_of}
use rs_core.Frontier.Append.{append-frontier_of}
use rs_core.Frontier.Batch.{append_many-frontier_of, shards_from}
use rs_core.Frontier.Root.{root-frontier_of}
use rs_core.Frontier.Siblings.{append_with_siblings-frontier_of, append_with_siblings-verifies}
use rs_core.Toy.{toy_field, three_leaves}

abbrev four_leaves : List ℕ
four_leaves = three_leaves ++ (40 ∷ [])

-- The fourth leaf fills the second shard of two leaves.
append-frontier_of_example :
    Frontier.append (frontier_of 3 1 three_leaves) 40
    ≡ ok (
      frontier_of 3 1 four_leaves,
      record {
        leaf_index = 3;
        completed_shard =
            some (record { shard_index = 1; root = subtree 1 (padded four_leaves 0) 1 });
      },
    )
append-frontier_of_example = append-frontier_of 3 1 three_leaves 40 (omega arith) (omega arith)

append_many-frontier_of_example :
    Frontier.append_many (frontier_of 3 1 (10 ∷ [])) (20 ∷ 30 ∷ 40 ∷ 50 ∷ [])
    ≡ ok (
      frontier_of 3 1 (four_leaves ++ (50 ∷ [])),
      shards_from 1 (padded (four_leaves ++ (50 ∷ [])) 0) 0 2,
    )
append_many-frontier_of_example =
    append_many-frontier_of 3 1 (10 ∷ []) (20 ∷ 30 ∷ 40 ∷ 50 ∷ []) (omega arith) (omega arith)
      (omega arith)

root-frontier_of_example :
    Frontier.root (frontier_of 3 1 three_leaves) ≡ ok (merkle_root 3 0 three_leaves)
root-frontier_of_example = root-frontier_of 3 1 three_leaves (omega arith) (omega arith)

abbrev appended : NotesFrontier ℕ × FrontierAppend ℕ × List ℕ
appended = (
  frontier_of 3 1 four_leaves,
  record {
    leaf_index = 3;
    completed_shard = some (record { shard_index = 1; root = subtree 1 (padded four_leaves 0) 1 });
  },
  merkle_path 3 (padded four_leaves 0) 3,
)

append_with_siblings_run :
    Frontier.append_with_siblings (frontier_of 3 1 three_leaves) 40 ≡ ok appended
append_with_siblings_run = rw (
  append_with_siblings-frontier_of 3 1 three_leaves 40 (omega arith) (omega arith),
  append-frontier_of_example,
)

append_with_siblings-verifies_example :
    verify_proof_at_depth
      (record { leaf = 40; index = 3; siblings = appended.2; root = merkle_root 3 0 four_leaves })
      3
    ≡ true
append_with_siblings-verifies_example =
    append_with_siblings-verifies 3 1 three_leaves 40 (omega arith) (omega arith)
      append_with_siblings_run (root-frontier_of 3 1 four_leaves (omega arith) (omega arith))

-- The code, run on its own: four appends and the root.
run_root :
    (Frontier.new 3 1 >>= λ t. Frontier.append_many t four_leaves >>= λ r. Frontier.root r.0)
    ≡ ok (merkle_root 3 0 four_leaves)
unfolding Frontier.new Frontier.append_many Frontier.append_many_loop Frontier.append
    Frontier.append_loop Frontier.push_shard Frontier.root Frontier.root_loop
    Frontier.capacity_or_max tree_capacity zero_roots zero_roots_from merkle_root subtree
run_root = refl
