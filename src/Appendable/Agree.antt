-- ===== src/Appendable/Agree.antt =====
-- The two implementations of the trait, given the same batches: the frontier follows the indexed
-- tree.
use rs_core.Prelude.{
  ℕ, ◌+◌, ◌^◌, ◌≤◌, ◌<◌, ◌≡◌, ◌∙◌, refl, sym, false, List, [], ◌∷◌, ◌++◌, arith, length,
  length-append, leb, ◌==◌, ◌||◌, le→leb, append_assoc, append-nil,
}
use rs_core.Outcome.{Outcome, ok, ◌>>=◌, >>=-ok, ok_eq}
use rs_core.Field.{Fr}
use rs_core.Merkle.{merkle_root}
use rs_core.Imt
use rs_core.Imt.Canonical.{leaf_count-tree_of}
use rs_core.Frontier
use rs_core.Frontier.{NotesFrontier}
use rs_core.Frontier.Canonical.{frontier_of, leaf_count-frontier_of}
use rs_core.Frontier.Root.{new-frontier_of, root-frontier_of, next_leaf_frontier-frontier_of}
use rs_core.Frontier.Batch.{append_many-frontier_of}
use rs_core.Indexed
use rs_core.Indexed.{IndexedMerkleTree}
use rs_core.Indexed.Laws.{
  indexed_of, new-indexed_of, root-indexed_of, next_leaf_frontier-indexed_of,
}
use rs_core.Appendable.Instances.{append_all, insert_many_ok}

-- A call of `append_all` for each batch.
unfoldable pub run_batches :
    {F T : Type 0} → (T → List F → Outcome T) → List (List F) → T → Outcome T
run_batches append [] t = ok t
run_batches append (batch ∷ batches) t = do t' ← append t batch; run_batches append batches t'

abbrev pub all_leaves : {F : Type 0} → List (List F) → List F
all_leaves [] = []
all_leaves (batch ∷ batches) = batch ++ all_leaves batches

module _ {F : Type 0} ⦃fr : Fr F⦄ where
  append_all-frontier_of :
      (d sh : ℕ) (leaves more : List F)
      → d < 64
      → 0 < sh
      → length leaves ≤ 2 ^ d
      → length leaves + length more ≤ 2 ^ d
      → append_all (frontier_of d sh leaves) more ≡ ok (frontier_of d sh (leaves ++ more))
  unfolding append_all
  append_all-frontier_of d sh leaves more c p h room = rw (
    append_many-frontier_of d sh leaves more c p h,
    le→leb (length leaves + length more) (2 ^ d) room,
  )

  run_batches-indexed_of :
      (d sh : ℕ) (leaves : List F) (batches : List (List F)) {u : IndexedMerkleTree F}
      → d < 64
      → 0 < sh
      → length leaves ≤ 2 ^ d
      → run_batches Indexed.insert_many batches (indexed_of d leaves) ≡ ok u
      → (u ≡ indexed_of d (leaves ++ all_leaves batches))
        × (length (leaves ++ all_leaves batches) ≤ 2 ^ d)
        × (run_batches append_all batches (frontier_of d sh leaves)
            ≡ ok (frontier_of d sh (leaves ++ all_leaves batches)))
  unfolding run_batches
  run_batches-indexed_of d sh leaves [] c p h e =
      rw (append-nil leaves) (let same : indexed_of d leaves ≡ _ = ok_eq e in (sym same, h, refl))
  run_batches-indexed_of d sh leaves (batch ∷ batches) c p h e =
      let (u', first, rest) = >>=-ok _ (Indexed.insert_many (indexed_of d leaves) batch) e in
      let (state, fits, _) = insert_many_ok d leaves batch c h first in
      let (last, room, run) =
        run_batches-indexed_of d sh (leaves ++ batch) batches c p
          (omega (arith, length-append leaves batch)) (rw state at rest) in
      rw (← append_assoc leaves batch (all_leaves batches))
        (last, room, rw (append_all-frontier_of d sh leaves batch c p h fits) run)

  -- At a depth below 64 and a valid shard height, whenever a new indexed tree takes a sequence of
  -- batches, a new frontier takes it too. Then both have the Merkle root of all the leaves, the same
  -- count, and the same answer of `next_leaf_frontier`.
  pub frontier_follows_indexed :
      (d sh : ℕ) (batches : List (List F)) {u : IndexedMerkleTree F}
      → d < 64
      → (sh == 0 || leb d sh) ≡ false
      → (Indexed.new d >>= run_batches Indexed.insert_many batches) ≡ ok u
      → (t : NotesFrontier F) × ((Frontier.new d sh >>= run_batches append_all batches) ≡ ok t)
        × (Frontier.root t ≡ ok (merkle_root d fr.zero (all_leaves batches)))
        × (Indexed.root u ≡ ok (merkle_root d fr.zero (all_leaves batches)))
        × (t.leaf_count ≡ Imt.leaf_count u.tree)
        × (Frontier.next_leaf_frontier t ≡ Indexed.next_leaf_frontier u)
  frontier_follows_indexed d sh batches {u} c good e =
      let leaves : List F = all_leaves batches in
      let (state, room, run) =
        run_batches-indexed_of d sh [] batches c (ground arith) (omega arith)
          (rw (new-indexed_of d c) at e) in
      (
        frontier_of d sh leaves,
        rw (new-frontier_of d sh c, good) run,
        root-frontier_of d sh leaves c room,
        rw state (root-indexed_of d leaves),
        leaf_count-frontier_of d sh leaves ∙ sym (rw state (leaf_count-tree_of d fr.zero leaves)),
        next_leaf_frontier-frontier_of d sh leaves c
            ∙ sym (rw state (next_leaf_frontier-indexed_of d leaves c)),
      )
