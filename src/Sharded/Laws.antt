-- ===== src/Sharded/Laws.antt =====
-- `new`, `append` and `root` of a sharded tree, for any state that stands for a list of leaves.
use rs_core.Prelude.{
  ℕ, ◌-◌, ◌*◌, ◌^◌, ◌<◌, ◌≡◌, ◌⊎◌, refl, sym, ap, ◌∙◌, List, [], ◌∷◌, ◌++◌, true, false, arith,
  length, length-append, ltb, leb, ◌==◌, ◌||◌, Bool-cases, inl, inr, append_assoc,
}
use mathlib.Core.Path.{subst}
use rs_core.Outcome.{ok, err, tree_full, owned_leaf_mismatch, invalid_geometry, index_ok}
use rs_core.Assoc.{All, find_at}
use rs_core.Field.{Fr}
use rs_core.Geometry.{tree_capacity_lem, zero_roots_lem, zero_roots_from}
use rs_core.Merkle.{merkle_root, subtree}
use rs_core.Prelude.Halves.{pow_pos}
use rs_core.Imt.Build.{new-tree_of, new_with_zero-tree_of}
use rs_core.Sharded.{ShardedNotesTree, OwnedNoteWitness, append, root, new, free_for}
use rs_core.Sharded.Canonical.{tabulate, sharded_of, empty_shard, index-zero_roots_from}
use rs_core.Sharded.Owned.{Tracked, tracked_notes}
use rs_core.Sharded.Holds.{Holds, append-sharded_of, root-sharded_of, settle-Holds, Tracked-append}

module _ {F : Type 0} ⦃fr : Fr F⦄ where
  -- Any state that stands for a list of leaves reports the Merkle root of that list.
  pub root-Holds :
      (d sh : ℕ) (leaves : List F) (t : ShardedNotesTree F)
      → Holds d sh leaves t
      → root t ≡ ok (merkle_root d fr.zero leaves)
  root-Holds d sh leaves t h =
      ap root h.state
      ∙ root-sharded_of d sh h.q h.done h.live t.owned_notes t.owned_leaves t.dirty_owned_notes
          h.cut h.count (omega (arith, h.part))
      ∙ ap (λ ls. ok (merkle_root d fr.zero ls)) h.whole

  pub new-sharded_of :
      (d sh : ℕ)
      → d < 64
      → (sh == 0 || leb d sh) ≡ false
      → new {F = F} d sh ≡ ok (sharded_of d sh 0 [] [] [] [] [])
  unfolding new
  new-sharded_of d sh c good =
      rw
        (
          good,
          tree_capacity_lem sh (ground arith),
          tree_capacity_lem d c,
          new-tree_of sh (ground arith),
          zero_roots_lem d,
          index_ok (zero_roots_from d fr.zero) sh
              (index-zero_roots_from d sh fr.zero (ground arith)),
          new_with_zero-tree_of (d - sh) (subtree sh (λ _. fr.zero) 0) (omega arith),
        )
        (unfold sharded_of tabulate empty_shard in refl)

  -- At a depth below 64, `new` reports a shard height that is zero or not below the depth, and
  -- otherwise gives a tree that stands for no leaves.
  pub new-Holds :
      (d sh : ℕ)
      → d < 64
      → (((sh == 0 || leb d sh) ≡ true) × (new {F = F} d sh ≡ err (invalid_geometry d sh)))
        ⊎ ((t : ShardedNotesTree F) × (new d sh ≡ ok t) × Holds d sh [] t)
  new-Holds d sh c = elim (Bool-cases (sh == 0 || leb d sh)) [
    | inl bad ↦ inl (bad, unfold new in rw bad)
    | inr good ↦ inr (
      sharded_of d sh 0 [] [] [] [] [],
      new-sharded_of d sh c good,
      record {
        constructible = c;
        cut = ground arith;
        q = 0;
        done = [];
        live = [];
        whole = refl;
        count = omega arith;
        part = pow_pos sh;
        room = omega arith;
        state = unfold sharded_of in refl;
        tracked = unfold sharded_of in tt;
      },
    )
  ]

  append-parts :
      (d sh q : ℕ) (done live leaves : List F) (notes : List (F × OwnedNoteWitness F))
      (places : List (ℕ × F)) (dirty : List F) (leaf : F)
      → d < 64
      → sh < d
      → length done ≡ q * 2 ^ sh
      → length live < 2 ^ sh
      → done ++ live ≡ leaves
      → ltb (length leaves) (2 ^ d) ≡ true
      → free_for (find_at places (length leaves)) leaf ≡ true
      → All (Tracked sh q leaves places) notes
      → (t : ShardedNotesTree F) × (append (sharded_of d sh q done live notes places dirty) leaf
          ≡ ok t)
        × (t.owned_leaves ≡ places)
        × (tracked_notes t.owned_notes ≡ tracked_notes notes)
        × Holds d sh (leaves ++ (leaf ∷ [])) t
  append-parts d sh q done live leaves notes places dirty leaf c cut h k whole room free all =
      let all' = Tracked-append sh q done live leaf places notes h (rw whole free) (rw whole all) in
      let short : length (done ++ live) < 2 ^ d = rw whole (ground arith) in
      let (t, settled, kept, same, held) =
        settle-Holds d sh q done live (live ++ (leaf ∷ [])) notes places dirty c cut h
          (omega (arith, length-append live (leaf ∷ [])))
          (omega (arith, length-append live (leaf ∷ [])))
          (omega (
            arith,
            length-append done live,
            length-append done (live ++ (leaf ∷ [])),
            length-append live (leaf ∷ []),
          ))
          all' in
      (
        t,
        append-sharded_of d sh q done live notes places dirty leaf c cut h k
            ∙ rw (whole, room, free) settled,
        kept,
        same,
        subst (λ ls. Holds d sh (ls ++ (leaf ∷ [])) t) whole
            (subst (λ ls. Holds d sh ls t) (sym (append_assoc done live (leaf ∷ []))) held),
      )

  -- `append` to a state that stands for `leaves` reports a full tree, or an owned note that is
  -- expected at the next place and is not this leaf; otherwise it succeeds, and the new state
  -- stands for the leaves with the new one at the end and tracks the same owned notes at the same
  -- places, those of a shard that is rolled over included.
  pub append-Holds :
      (d sh : ℕ) (leaves : List F) (t : ShardedNotesTree F) (leaf : F)
      → Holds d sh leaves t
      → ((length leaves ≡ 2 ^ d) × (append t leaf ≡ err (tree_full d)))
        ⊎ (((free_for (find_at t.owned_leaves (length leaves)) leaf ≡ false)
              × (append t leaf ≡ err (owned_leaf_mismatch (length leaves))))
            ⊎ ((t' : ShardedNotesTree F) × (append t leaf ≡ ok t')
                × (t'.owned_leaves ≡ t.owned_leaves)
                × (tracked_notes t'.owned_notes ≡ tracked_notes t.owned_notes)
                × Holds d sh (leaves ++ (leaf ∷ [])) t'))
  append-Holds d sh leaves t leaf h =
      let start = ap (λ s. append s leaf) h.state in
      let step =
        append-sharded_of d sh h.q h.done h.live t.owned_notes t.owned_leaves t.dirty_owned_notes
          leaf h.constructible h.cut h.count h.part in
      elim (Bool-cases (ltb (length leaves) (2 ^ d))) [
        | inr full ↦ inl (ground (arith, h.room), start ∙ step ∙ rw (h.whole, full))
        | inl room ↦
            inr (elim (Bool-cases (free_for (find_at t.owned_leaves (length leaves)) leaf)) [
              | inr taken ↦ inl (taken, start ∙ step ∙ rw (h.whole, room, taken))
              | inl free ↦
                  let (t', e, kept, same, held) =
                    append-parts d sh h.q h.done h.live leaves t.owned_notes t.owned_leaves
                      t.dirty_owned_notes leaf h.constructible h.cut h.count h.part h.whole room
                      free h.tracked in
                  inr (t', start ∙ e, kept, same, held)
            ])
      ]
