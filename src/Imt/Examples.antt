-- ===== src/Imt/Examples.antt =====
-- `Imt` on small trees, and its theorems at inputs where their hypotheses hold.
use rs_core.Prelude.{get_elem?, some, ℕ, ◌≡◌, refl, true, List, [], ◌∷◌, ◌++◌, arith}
use rs_core.Outcome.{ok, err, ◌>>=◌, tree_full}
use rs_core.Geometry.{zero_roots_from, tree_capacity}
use rs_core.Merkle.{padded, merkle_root, subtree}
use rs_core.Proof.{verify_proof_at_depth}
use rs_core.Proof.Paths.{proof_of}
use rs_core.Imt
use rs_core.Imt.{Imt}
use rs_core.Imt.Canonical.{tree_of}
use rs_core.Imt.Build.{from_leaves_with_zero-tree_of}
use rs_core.Imt.Insert.{insert-tree_of}
use rs_core.Imt.InsertMany.{insert_many-tree_of}
use rs_core.Imt.Update.{update-tree_of}
use rs_core.Imt.Root.{create_proof_inside}
use rs_core.Imt.Client.{Call, run, replay, run-new_refines, root-run, create_proof-verifies}
use rs_core.Toy.{toy_field, three_leaves}

insert-tree_of_example :
    Imt.insert (tree_of 2 0 three_leaves) 40 ≡ ok (tree_of 2 0 (three_leaves ++ (40 ∷ [])))
insert-tree_of_example = insert-tree_of 2 0 three_leaves 40 (omega arith)

insert_many-tree_of_example :
    Imt.insert_many (tree_of 2 0 three_leaves) (40 ∷ 50 ∷ []) ≡ err (tree_full 2)
insert_many-tree_of_example =
    insert_many-tree_of 2 0 three_leaves (40 ∷ 50 ∷ []) (omega arith) (omega arith)

from_leaves_with_zero-tree_of_example :
    Imt.from_leaves_with_zero 2 7 three_leaves ≡ ok (tree_of 2 7 three_leaves)
from_leaves_with_zero-tree_of_example = from_leaves_with_zero-tree_of 2 7 three_leaves (omega arith)

update-tree_of_example :
    Imt.update (tree_of 2 0 three_leaves) 1 25 ≡ ok (tree_of 2 0 (10 ∷ 25 ∷ 30 ∷ []))
update-tree_of_example = update-tree_of 2 0 three_leaves 1 25 (omega arith)

abbrev calls : List (Call ℕ)
calls =
    Call.insert 10 ∷ Call.insert_many (20 ∷ 30 ∷ 40 ∷ []) ∷ Call.update 1 21 ∷ Call.truncate 3 ∷ []

abbrev kept : List ℕ
kept = 10 ∷ 21 ∷ 30 ∷ []

replay-calls : replay 2 calls [] ≡ ok kept
unfolding replay
replay-calls = refl

run-new_refines_example :
    (Imt.new_with_zero 2 0 >>= run calls)
    ≡ (replay 2 calls [] >>= λ leaves. ok (tree_of 2 0 leaves))
run-new_refines_example = run-new_refines 2 0 (omega arith) calls

root-run_example : (Imt.new_with_zero 2 0 >>= run calls >>= Imt.root) ≡ ok (merkle_root 2 0 kept)
root-run_example = root-run 2 0 (omega arith) calls replay-calls

kept_root : merkle_root 2 0 kept ≡ 864
unfolding merkle_root subtree
kept_root = refl

-- The code and the specification, each run on the same leaves.
built_root : (Imt.from_leaves 2 kept >>= Imt.root) ≡ ok 864
unfolding Imt.from_leaves Imt.from_leaves_with_zero Imt.new_with_zero tree_capacity zero_roots_from
    Imt.build_loop Imt.build_parent_level Imt.root Imt.is_empty
built_root = refl

create_proof-verifies_example :
    ((proof_of 2 (padded kept 0) 1).index ≡ 1)
    × (get_elem? kept 1 ≡ some (proof_of 2 (padded kept 0) 1).leaf)
    × ((proof_of 2 (padded kept 0) 1).root ≡ merkle_root 2 0 kept)
    × (verify_proof_at_depth (proof_of 2 (padded kept 0) 1) 2 ≡ true)
create_proof-verifies_example = create_proof-verifies 2 0 (omega arith) calls 1 replay-calls made
  where
    made :
        (Imt.new_with_zero 2 0 >>= run calls >>= λ t. Imt.create_proof t 1)
        ≡ ok (proof_of 2 (padded kept 0) 1)
    made =
        rw (run-new_refines 2 0 (omega arith) calls, replay-calls)
          (create_proof_inside 2 0 kept 1 (omega arith))
