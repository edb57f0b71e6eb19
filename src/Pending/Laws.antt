-- ===== src/Pending/Laws.antt =====
-- What a call of `build_bound_pending_commitment` does, on all branches.
use rs_core.Prelude.{
  ℕ, ◌+◌, ◌-◌, ◌^◌, ◌≤◌, ◌<◌, ◌≡◌, refl, ap, ◌∙◌, ◌⊎◌, inl, inr, List, [], ◌∷◌, ◌++◌, arith, length,
  length-append, length-replicate, replicate, le→leb,
}
use rs_core.Outcome.{Outcome, panic}
use rs_core.Result.{Result, ok, err, ok_eq, Result-cases}
use rs_core.Bytes.{take-append_prefix}
use rs_core.Field.{Fr}
use rs_core.Merkle.{padded, merkle_root, merkle_frontier}
use rs_core.Wire.{FrInt}
use rs_core.Calldata.{FrHash, bind_calldata}
use rs_core.Calldata.Packed.{bind_calldata-total}
use rs_core.Appendable.{AppendableNotesTree}
use rs_core.Pending.Checks.{IsBatch, Faulty, check_note_ids-cases}
use rs_core.Pending.{
  PendingCommitmentError, Stop, BoundPendingCommitment, Appended, failed, of_tree, note_ids, words,
  bound_pending_commitment_words, max_pending_batch_size, append_checked, bind_appended,
  build_bound_pending_commitment,
}

of_tree-ok : {A : Type 0} (o : Outcome A) {a : A} → of_tree o ≡ ok a → o ≡ Outcome.ok a
unfolding of_tree
of_tree-ok (Outcome.ok a) h = ap Outcome.ok (ok_eq h)
of_tree-ok (Outcome.err e) h = cc
of_tree-ok panic h = cc

module _ {F T : Type 0} ⦃fr : Fr F⦄ ⦃int : FrInt F⦄ ⦃hash : FrHash F⦄
    (trees : AppendableNotesTree F T) where
  -- Why a call is refused: the batch has the fault that the error names, or the tree refuses it.
  pub Refused : T → ℕ → List F → Stop → Type 0
  Refused t n ids stop =
      ((e : PendingCommitmentError) × (stop ≡ failed e) × Faulty n ids e)
      ⊎ (IsBatch n ids
          × ((of_tree (trees.next_leaf_frontier t) ≡ err stop)
              ⊎ (of_tree (trees.append_all t ids) ≡ err stop)))

  -- What a call says of a tree of depth `d` with `leaves`, and what it leaves.
  pub record Commits (d : ℕ) (leaves : List F) (t : T) (n : ℕ) (ids : List F) (t' : T)
      (b : BoundPendingCommitment F) : Type 0 where
    pub batch : IsBatch n ids
    pub appended : trees.append_all t ids ≡ Outcome.ok t'
    pub held : trees.holds d (leaves ++ ids) t'
    pub room : length leaves + length ids ≤ 2 ^ d
    pub index : b.current_note_index ≡ length leaves
    pub root : b.current_notes_root ≡ merkle_root d fr.zero leaves
    pub ids_padded : b.pending_note_ids ≡ ids ++ replicate (n - length ids) fr.zero
    pub next : b.frontier ≡ merkle_frontier d (padded leaves fr.zero) (length leaves)
    pub new_root : b.new_notes_root ≡ merkle_root d fr.zero (leaves ++ ids)
    pub new_index : b.new_note_index ≡ length leaves + length ids
    pub bound : bind_calldata (words b) ≡ ok b.binding
    pub sent : note_ids b ≡ Outcome.ok ids

  abbrev start : List F → ℕ → ℕ → List F → T → Appended F T
  start leaves d n ids t' = record {
    after = t';
    before_index = length leaves;
    before_root = merkle_root d fr.zero leaves;
    padded_ids = ids ++ replicate (n - length ids) fr.zero;
    next_frontier = merkle_frontier d (padded leaves fr.zero) (length leaves);
  }

  append_checked-cases :
      (d : ℕ) (leaves : List F) (t : T) (n : ℕ) (ids : List F)
      → trees.holds d leaves t
      → ((t' : T) × (append_checked trees t n ids ≡ ok (start leaves d n ids t'))
          × IsBatch n ids
          × (trees.append_all t ids ≡ Outcome.ok t'))
        ⊎ ((stop : Stop) × (append_checked trees t n ids ≡ err stop) × Refused t n ids stop)
  unfolding append_checked Refused
  append_checked-cases d leaves t n ids h = elim (check_note_ids-cases n ids) [
    | inr (e, run, fault) ↦ inr (failed e, rw run, inl (e, refl, fault))
    | inl (run, batch) ↦
        let root = trees.root-holds d leaves t h in
        elim (Result-cases {A = List F} (of_tree (trees.next_leaf_frontier t))) [
          | inr (stop, bad) ↦ inr (stop, rw (run, root, of_tree, bad), inr (batch, inl bad))
          | inl (frontier, good) ↦ elim (Result-cases {A = T} (of_tree (trees.append_all t ids))) [
            | inr (stop, bad) ↦ inr (stop, rw (run, root, of_tree, good, bad), inr (batch, inr bad))
            | inl (t', app) ↦
                let app' = of_tree-ok (trees.append_all t ids) app in
                let (_, room) = trees.append_all-holds d leaves ids t t' h app' in
                let some_notes : 0 < length ids = batch.some_notes in
                let next = trees.next_leaf_frontier-holds d leaves t h (omega arith) in
                inl
                  (t', rw (run, root, next, app', trees.leaf_count-holds d leaves t h), batch, app')
          ]
        ]
  ]

  length-padded_ids :
      (n : ℕ) (ids : List F)
      → length ids ≤ n
      → length (ids ++ replicate (n - length ids) fr.zero) ≡ n
  length-padded_ids n ids h = omega (
    arith,
    length-append ids (replicate (n - length ids) fr.zero),
    length-replicate (n - length ids) fr.zero,
  )

  length-words :
      (ids : List F) (a b : F) (i j : ℕ)
      → length (bound_pending_commitment_words ids a b i j) ≡ length ids + 4
  unfolding bound_pending_commitment_words
  length-words ids a b i j = length-append ids (a ∷ b ∷ hash.from_u64 i ∷ hash.from_u64 j ∷ [])

  note_ids-start :
      (b : BoundPendingCommitment F) (ids zeros : List F) (before : ℕ)
      → b.pending_note_ids ≡ ids ++ zeros
      → b.current_note_index ≡ before
      → b.new_note_index ≡ before + length ids
      → note_ids b ≡ Outcome.ok ids
  unfolding note_ids
  note_ids-start b ids zeros before p c a =
      let sent : before + length ids - before ≡ length ids = omega arith in
      rw
        (
          p,
          c,
          a,
          le→leb before (before + length ids) (omega arith),
          sent,
          le→leb (0 + length ids) (length (ids ++ zeros)) (omega (arith, length-append ids zeros)),
        )
        (ap Outcome.ok (take-append_prefix (length ids) ids zeros refl))

  bind_appended-ok :
      (d : ℕ) (leaves : List F) (t : T) (n : ℕ) (ids : List F) (t' : T)
      → trees.holds d leaves t
      → IsBatch n ids
      → trees.append_all t ids ≡ Outcome.ok t'
      → (b : BoundPendingCommitment F) × (bind_appended trees (start leaves d n ids t') ≡ ok b)
        × Commits d leaves t n ids t' b
  unfolding bind_appended words
  bind_appended-ok d leaves t n ids t' h batch app =
      let (held, room) = trees.append_all-holds d leaves ids t t' h app in
      let padded_ids : List F = ids ++ replicate (n - length ids) fr.zero in
      let count : trees.leaf_count t' ≡ length leaves + length ids =
        trees.leaf_count-holds d (leaves ++ ids) t' held ∙ length-append leaves ids in
      let root = trees.root-holds d (leaves ++ ids) t' held in
      let size : length padded_ids ≡ n = length-padded_ids n ids batch.fits in
      let positive : 1 ≤ n = batch.positive in
      let bounded : n ≤ max_pending_batch_size = batch.bounded in
      let all_words : List F =
        bound_pending_commitment_words padded_ids (merkle_root d fr.zero leaves)
          (merkle_root d fr.zero (leaves ++ ids)) (length leaves) (trees.leaf_count t') in
      let word_count : length all_words ≡ length padded_ids + 4 =
        length-words padded_ids (merkle_root d fr.zero leaves)
          (merkle_root d fr.zero (leaves ++ ids)) (length leaves) (trees.leaf_count t') in
      let (bound, run) = bind_calldata-total all_words (omega arith) (omega arith) in
      let b : BoundPendingCommitment F = record {
        current_note_index = length leaves;
        current_notes_root = merkle_root d fr.zero leaves;
        pending_note_ids = padded_ids;
        frontier = merkle_frontier d (padded leaves fr.zero) (length leaves);
        new_notes_root = merkle_root d fr.zero (leaves ++ ids);
        new_note_index = trees.leaf_count t';
        binding = bound;
      } in
      (
        b,
        rw (root, of_tree, run),
        record {
          batch = batch;
          appended = app;
          held = held;
          room = room;
          index = refl;
          root = refl;
          ids_padded = refl;
          next = refl;
          new_root = refl;
          new_index = count;
          bound = run;
          sent =
              note_ids-start b ids (replicate (n - length ids) fr.zero) (length leaves) refl refl
                count;
        },
      )

  -- On a tree that holds `leaves`, a call either commits the batch or is refused and leaves the tree
  -- as it is. It commits exactly with the tree's own append: then the batch is within the circuit's
  -- size, without zero or repeat, the roots are the Merkle roots before and after, the indices are
  -- the counts, the frontier is that of the next leaf, `binding` is the calldata binding of
  -- `words`, and `note_ids` is the batch without its padding. An error names a fault of the batch, or
  -- is one that the tree's own frontier or append returned; binding the words is never one.
  pub build_bound_pending_commitment-Commits :
      (d : ℕ) (leaves : List F) (t : T) (n : ℕ) (ids : List F)
      → trees.holds d leaves t
      → ((t' : T) × (b : BoundPendingCommitment F) × (build_bound_pending_commitment trees t n ids
            ≡ (t', ok b))
          × Commits d leaves t n ids t' b)
        ⊎ ((stop : Stop) × (build_bound_pending_commitment trees t n ids ≡ (t, err stop))
            × Refused t n ids stop)
  unfolding build_bound_pending_commitment
  build_bound_pending_commitment-Commits d leaves t n ids h =
      elim (append_checked-cases d leaves t n ids h) [
        | inr (stop, run, why) ↦ inr (stop, rw (run, build_bound_pending_commitment), why)
        | inl (t', run, batch, app) ↦
            let (b, bound, commits) = bind_appended-ok d leaves t n ids t' h batch app in
            inl (
              t',
              b,
              rw (run, build_bound_pending_commitment)
                  (ap (λ (r : Result Stop (BoundPendingCommitment F)). (t', r)) bound),
              commits,
            )
      ]
