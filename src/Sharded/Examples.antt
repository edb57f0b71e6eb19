-- ===== src/Sharded/Examples.antt =====
-- A sharded tree of depth three with shards of two leaves, and its theorems on it.
use rs_core.Prelude.{
  ℕ, ℕ_discrete, ◌^◌, ◌+◌, ◌*◌, ◌/◌, ◌%◌, ◌≤◌, ◌≡◌, ◌⊎◌, refl, true, false, List, [], ◌∷◌, ◌++◌,
  some, none, arith, length,
}
use rs_core.Outcome.{ok, err, tree_full, owned_leaf_mismatch}
use rs_core.Geometry.{tree_capacity}
use rs_core.Assoc.{values_from, find, find_at}
use rs_core.Merkle.{padded, subtree, merkle_root}
use rs_core.Proof.{InclusionProof, hash_path, verify_proof_at_depth}
use rs_core.Sharded
use rs_core.Sharded.{ShardedNotesTree, OwnedNoteWitness, free_for}
use rs_core.Sharded.Canonical.{shard, sharded_of, tabulate}
use rs_core.Sharded.Owned.{pending, tracked_notes}
use rs_core.Sharded.Holds.{Holds}
use rs_core.Sharded.Laws.{root-Holds, append-Holds}
use rs_core.Sharded.Notes.{witness, mark_owned, adopt_frozen_witness, verify_frozen_path, track}
use rs_core.Sharded.Witness.{witness-Holds}
use rs_core.Sharded.Marks.{mark_owned-Holds}
use rs_core.Sharded.Adopt.{AtPlace, adopt_frozen_witness-Holds}
use rs_core.Sharded.Stateless.{sharded_root, sharded_root-merkle_root}
use rs_core.Sharded.Rewind.{rewind_live_to, rewind_live_to-Holds}
use rs_core.Sharded.Flat.{sharded_witness, sharded_witness-proof_of}
use rs_core.Proof.Paths.{proof_of}
use rs_core.Toy.{toy_field, three_leaves}

abbrev third : OwnedNoteWitness ℕ
third = record { note_id = 30; leaf_index = 2; within_shard_siblings = none }

-- One completed shard, one live leaf, and its note owned.
abbrev tree : ShardedNotesTree ℕ
tree = sharded_of 3 1 1 (10 ∷ 20 ∷ []) (30 ∷ []) ((30, third) ∷ []) ((2, 30) ∷ []) []

tree-Holds : Holds 3 1 three_leaves tree
unfolding sharded_of find_at
tree-Holds = record {
  constructible = omega arith;
  cut = omega arith;
  q = 1;
  done = 10 ∷ 20 ∷ [];
  live = 30 ∷ [];
  whole = refl;
  count = refl;
  part = omega arith;
  room = omega arith;
  state = refl;
  tracked =
      (record { same_id = refl; indexed = refl; path = pending (omega arith) (λ _. refl) }, tt);
}

third_found : find ℕ_discrete tree.owned_notes 30 ≡ some third
unfolding sharded_of find ℕ_discrete
third_found = refl

abbrev four_more : List ℕ
four_more = 40 ∷ 50 ∷ 60 ∷ 70 ∷ []

root-Holds_example : Sharded.root tree ≡ ok (merkle_root 3 0 three_leaves)
root-Holds_example = root-Holds 3 1 three_leaves tree tree-Holds

append-Holds_example :
    ((length three_leaves ≡ 2 ^ 3) × (Sharded.append tree 40 ≡ err (tree_full 3)))
    ⊎ (((free_for (find_at tree.owned_leaves 3) 40 ≡ false)
          × (Sharded.append tree 40 ≡ err (owned_leaf_mismatch 3)))
        ⊎ ((t : ShardedNotesTree ℕ) × (Sharded.append tree 40 ≡ ok t)
            × (t.owned_leaves ≡ tree.owned_leaves)
            × (tracked_notes t.owned_notes ≡ tracked_notes tree.owned_notes)
            × Holds 3 1 (three_leaves ++ (40 ∷ [])) t))
append-Holds_example = append-Holds 3 1 three_leaves tree 40 tree-Holds

witness-Holds_example :
    (p : InclusionProof ℕ) × (witness tree 30 ≡ ok p)
    × (p.leaf ≡ 30)
    × (p.index ≡ 2)
    × (p.root ≡ merkle_root 3 0 three_leaves)
    × (verify_proof_at_depth p 3 ≡ true)
witness-Holds_example =
    witness-Holds 3 1 three_leaves tree 30 third tree-Holds third_found (omega arith)

marked : mark_owned tree 40 3 ≡ ok (track tree 40 3 none)
unfolding sharded_of mark_owned find find_at ℕ_discrete tree_capacity Sharded.leaf_count tabulate
marked = refl

mark_owned-Holds_example : Holds 3 1 three_leaves (track tree 40 3 none)
mark_owned-Holds_example =
    mark_owned-Holds 3 1 three_leaves tree (track tree 40 3 none) 40 3 tree-Holds marked

adopted : adopt_frozen_witness tree 20 1 (10 ∷ []) ≡ ok (track tree 20 1 (some (10 ∷ [])))
unfolding sharded_of adopt_frozen_witness verify_frozen_path find find_at hash_path ℕ_discrete
    tabulate subtree
adopted = refl

adopt_frozen_witness-Holds_example :
    Holds 3 1 three_leaves (track tree 20 1 (some (10 ∷ [])))
    × (track tree 20 1 (some (10 ∷ [])) ≡ track tree 20 1 (some (10 ∷ [])))
    × ((1 / 2 ^ 1 + 1) * 2 ^ 1 ≤ length three_leaves)
    × (free_for (find_at tree.owned_leaves 1) 20 ≡ true)
    × AtPlace 1 (find ℕ_discrete tree.owned_notes 20)
    × (length {A = ℕ} (10 ∷ []) ≡ 1)
    × (hash_path 20 (1 % 2 ^ 1) (10 ∷ []) ≡ (shard 1 three_leaves (1 / 2 ^ 1), 0))
adopt_frozen_witness-Holds_example =
    adopt_frozen_witness-Holds 3 1 three_leaves tree (track tree 20 1 (some (10 ∷ []))) 20 1
      (10 ∷ []) tree-Holds adopted

sharded_root-merkle_root_example : sharded_root three_leaves 3 1 ≡ ok (merkle_root 3 0 three_leaves)
sharded_root-merkle_root_example =
    sharded_root-merkle_root 3 1 three_leaves (omega arith) (omega arith) (omega arith)

rewind_live_to-Holds_example :
    (t : ShardedNotesTree ℕ) × (rewind_live_to tree 2 ≡ ok (t, values_from tree.owned_leaves 2))
    × Holds 3 1 (10 ∷ 20 ∷ []) t
unfolding sharded_of tabulate
rewind_live_to-Holds_example =
    rewind_live_to-Holds 3 1 three_leaves tree 2 tree-Holds (omega arith) (omega arith)

sharded_witness-proof_of_example :
    sharded_witness three_leaves 2 3 1 ≡ ok (proof_of 3 (padded three_leaves 0) 2)
sharded_witness-proof_of_example =
    sharded_witness-proof_of 3 1 three_leaves 2 (omega arith) (omega arith) (omega arith)
      (omega arith)
