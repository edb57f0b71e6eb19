-- ===== src/Appendable/Instances.antt =====
-- The two implementations of the trait.
use rs_core.Prelude.{
  ℕ, ◌+◌, ◌^◌, ◌≤◌, ◌<◌, ◌≡◌, ◌∙◌, true, List, [], ◌++◌, arith, length, length-append, lt→ltb,
}
use rs_core.Outcome.{Outcome, ok, ◌>>=◌}
use rs_core.Field.{Fr}
use rs_core.Imt
use rs_core.Imt.Canonical.{depth-tree_of, leaf_count-tree_of}
use rs_core.Frontier
use rs_core.Frontier.{NotesFrontier}
use rs_core.Frontier.Canonical.{frontier_of, depth-frontier_of, leaf_count-frontier_of}
use rs_core.Frontier.Root.{root-frontier_of, next_leaf_frontier-frontier_of}
use rs_core.Frontier.Batch.{append_many-frontier_of}
use rs_core.Indexed
use rs_core.Indexed.{IndexedMerkleTree}
use rs_core.Indexed.Map.{fresh, fresh-append}
use rs_core.Indexed.Laws.{
  indexed_of, insert_many-indexed_of, root-indexed_of, next_leaf_frontier-indexed_of,
}
use rs_core.Appendable.{AppendableNotesTree}

module _ {F : Type 0} ⦃fr : Fr F⦄ where
  pub record FrontierHolds (d : ℕ) (leaves : List F) (t : NotesFrontier F) : Type 0 where
    pub constructible : d < 64
    pub room : length leaves ≤ 2 ^ d
    pub height : ℕ
    pub sharded : 0 < height
    pub canonical : t ≡ frontier_of d height leaves

  pub record IndexedHolds (d : ℕ) (leaves : List F) (t : IndexedMerkleTree F) : Type 0 where
    pub constructible : d < 64
    pub room : length leaves ≤ 2 ^ d
    pub distinct : fresh [] leaves ≡ true
    pub canonical : t ≡ indexed_of d leaves

  -- Appends to a copy and swaps it in.
  unfoldable pub append_all : NotesFrontier F → List F → Outcome (NotesFrontier F)
  append_all t leaves = do (work, _) ← Frontier.append_many t leaves; ok work

  append_all_ok :
      (d sh : ℕ) (leaves more : List F) {t' : NotesFrontier F}
      → d < 64
      → 0 < sh
      → length leaves ≤ 2 ^ d
      → append_all (frontier_of d sh leaves) more ≡ ok t'
      → (t' ≡ frontier_of d sh (leaves ++ more)) × (length leaves + length more ≤ 2 ^ d)
  unfolding append_all
  append_all_ok d sh leaves more c p h e =
      ground (arith, append_many-frontier_of d sh leaves more c p h)

  pub append_all-FrontierHolds :
      (d : ℕ) (leaves more : List F) (t t' : NotesFrontier F)
      → FrontierHolds d leaves t
      → append_all t more ≡ ok t'
      → FrontierHolds d (leaves ++ more) t' × (length leaves + length more ≤ 2 ^ d)
  append_all-FrontierHolds d leaves more t t' h e =
      let (state, fits) =
        append_all_ok d h.height leaves more h.constructible h.sharded h.room
          (rw h.canonical at e) in
      (
        record {
          constructible = h.constructible;
          room = omega (arith, length-append leaves more);
          height = h.height;
          sharded = h.sharded;
          canonical = state;
        },
        fits,
      )

  pub insert_many_ok :
      (d : ℕ) (leaves more : List F) {t' : IndexedMerkleTree F}
      → d < 64
      → length leaves ≤ 2 ^ d
      → Indexed.insert_many (indexed_of d leaves) more ≡ ok t'
      → (t' ≡ indexed_of d (leaves ++ more))
        × (length leaves + length more ≤ 2 ^ d)
        × (fresh leaves more ≡ true)
  insert_many_ok d leaves more c h e = ground (arith, insert_many-indexed_of d leaves more c h)

  pub insert_many-IndexedHolds :
      (d : ℕ) (leaves more : List F) (t t' : IndexedMerkleTree F)
      → IndexedHolds d leaves t
      → Indexed.insert_many t more ≡ ok t'
      → IndexedHolds d (leaves ++ more) t' × (length leaves + length more ≤ 2 ^ d)
  insert_many-IndexedHolds d leaves more t t' h e =
      let (state, fits, new) =
        insert_many_ok d leaves more h.constructible h.room (rw h.canonical at e) in
      (
        record {
          constructible = h.constructible;
          room = omega (arith, length-append leaves more);
          distinct = ground (arith, fresh-append [] leaves more, h.distinct);
          canonical = state;
        },
        fits,
      )

  -- `impl AppendableNotesTree for NotesFrontier`
  unfoldable pub frontier_instance : AppendableNotesTree F (NotesFrontier F)
  frontier_instance = record {
    depth = λ t. t.depth;
    leaf_count = λ t. t.leaf_count;
    root = Frontier.root;
    next_leaf_frontier = Frontier.next_leaf_frontier;
    append_all = append_all;
    holds = FrontierHolds;
    depth-holds = λ d leaves t h. rw h.canonical (depth-frontier_of d h.height leaves);
    leaf_count-holds = λ d leaves t h. rw h.canonical (leaf_count-frontier_of d h.height leaves);
    root-holds =
        λ d leaves t h. rw h.canonical (root-frontier_of d h.height leaves h.constructible h.room);
    next_leaf_frontier-holds = λ d leaves t h room.
        rw h.canonical
          (next_leaf_frontier-frontier_of d h.height leaves h.constructible ∙ rw (lt→ltb _ _ room));
    append_all-holds = append_all-FrontierHolds;
  }

  -- `impl AppendableNotesTree for IndexedMerkleTree`
  unfoldable pub indexed_instance : AppendableNotesTree F (IndexedMerkleTree F)
  indexed_instance = record {
    depth = λ t. t.tree.depth;
    leaf_count = λ t. Imt.leaf_count t.tree;
    root = Indexed.root;
    next_leaf_frontier = Indexed.next_leaf_frontier;
    append_all = Indexed.insert_many;
    holds = IndexedHolds;
    depth-holds = λ d leaves t h. rw h.canonical (depth-tree_of d fr.zero leaves);
    leaf_count-holds = λ d leaves t h. rw h.canonical (leaf_count-tree_of d fr.zero leaves);
    root-holds = λ d leaves t h. rw h.canonical (root-indexed_of d leaves);
    next_leaf_frontier-holds = λ d leaves t h room.
        rw h.canonical
          (next_leaf_frontier-indexed_of d leaves h.constructible ∙ rw (lt→ltb _ _ room));
    append_all-holds = insert_many-IndexedHolds;
  }
