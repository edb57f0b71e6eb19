-- ===== src/Sharded/Owned.antt =====
-- The owned notes of a sharded tree: what is known of a note, and that a shard's roll-over turns a
-- note of the live shard into one with a path to the shard's root.
use rs_core.Prelude.{
  ℕ, suc, ◌*◌, ◌/◌, ◌%◌, ◌^◌, ◌≤◌, ◌<◌, ◌≡◌, refl, sym, ap, ◌∙◌, List, [], ◌∷◌, ◌++◌, Option, none,
  some, Bool, true, false, arith, length, length-append, ◌==◌, Bool-cases, inl, inr, get_or,
  get_elem?-get_or, not, ◌||◌,
}
use native.Mathlib.Nat.{mod-lt, div-add-mod}
use rs_core.Prelude.Halves.{pow_pos}
use rs_core.Outcome.{Outcome, ok}
use rs_core.Assoc.{All, find_at}
use rs_core.Field.{Fr}
use rs_core.Merkle.{padded, merkle_root, merkle_path}
use rs_core.Merkle.Shards.{get_or-append_right}
use rs_core.Proof.{hash_path}
use rs_core.Proof.Paths.{same_refl, hash_path-merkle_path, length-merkle_path}
use rs_core.Imt
use rs_core.Imt.Canonical.{tree_of, leaf-tree_of}
use rs_core.Imt.Root.{create_proof_inside}
use rs_core.Sharded.{OwnedNoteWitness, freeze, is_note, is_some, add}
use rs_core.Sharded.Canonical.{length-tabulate, shard, shard_live, sharded_of}

module _ {F : Type 0} ⦃fr : Fr F⦄ where
  -- The path of a note: a frozen one leads to the root of a completed shard; a note without one
  -- stands behind the completed shards, at its leaf if the leaf is there.
  pub data PathOk (sh q : ℕ) (leaves : List F) (id : F) (place : ℕ) : Option (List F) → Type 0 where
    frozen :
        (siblings : List F)
        → place / 2 ^ sh < q
        → length siblings ≡ sh
        → hash_path id (place % 2 ^ sh) siblings ≡ (shard sh leaves (place / 2 ^ sh), 0)
        → PathOk sh q leaves id place (some siblings)
    pending :
        q ≤ place / 2 ^ sh
        → (place < length leaves → get_or leaves place fr.zero ≡ id)
        → PathOk sh q leaves id place none

  pub record Tracked (sh q : ℕ) (leaves : List F) (places : List (ℕ × F))
      (entry : F × OwnedNoteWitness F) : Type 0 where
    pub same_id : entry.1.note_id ≡ entry.0
    pub indexed : find_at places entry.1.leaf_index ≡ some entry.0
    pub path : PathOk sh q leaves entry.0 entry.1.leaf_index entry.1.within_shard_siblings

  -- A note of the live shard is the live leaf at its place within the shard.
  pub live_leaf :
      (sh q : ℕ) (done live : List F) (place : ℕ)
      → length done ≡ q * 2 ^ sh
      → place / 2 ^ sh ≡ q
      → get_or (done ++ live) place fr.zero ≡ get_or live (place % 2 ^ sh) fr.zero
  live_leaf sh q done live place h e =
      get_or-append_right done live (place % 2 ^ sh) place fr.zero
        (omega (arith, div-add-mod place (2 ^ sh), ap (λ (j : ℕ). j * 2 ^ sh) e))

  -- The path that `roll_over` takes for a note of the full live shard.
  pub frozen_path :
      (sh q : ℕ) (done live : List F) (place : ℕ)
      → length done ≡ q * 2 ^ sh
      → place / 2 ^ sh ≡ q
      → hash_path
          (get_or (done ++ live) place fr.zero)
          (place % 2 ^ sh)
          (merkle_path sh (padded live fr.zero) (place % 2 ^ sh))
        ≡ (shard sh (done ++ live) (place / 2 ^ sh), 0)
  frozen_path sh q done live place h e =
      rw (live_leaf sh q done live place h e, e, shard_live sh q done live h)
        (unfold merkle_root in
          hash_path-merkle_path sh (padded live fr.zero) (place % 2 ^ sh)
            (mod-lt place (pow_pos sh)))

  -- What `roll_over` asks of a note before it passes over it.
  abbrev skips : ℕ → ℕ → ℕ → Option (List F) → Bool
  skips sh q place path = not (place / 2 ^ sh == q) || is_some path

  keeps :
      (sh q : ℕ) (leaves : List F) (id : F) (place : ℕ) (path : Option (List F))
      → PathOk sh q leaves id place path
      → skips sh q place path ≡ true
      → PathOk sh (suc q) leaves id place path
  keeps sh q leaves id place (some s) (frozen _ k l h) e = frozen s (omega arith) l h
  keeps sh q leaves id place none (pending k h) e = pending (ground arith) h

  takes :
      (sh q : ℕ) (leaves : List F) (id : F) (place : ℕ) (path : Option (List F))
      → PathOk sh q leaves id place path
      → skips sh q place path ≡ false
      → (place / 2 ^ sh ≡ q) × (place < length leaves → get_or leaves place fr.zero ≡ id)
  takes sh q leaves id place (some s) (frozen _ k l h) e = absurd (ground arith)
  takes sh q leaves id place none (pending k h) e = (ground arith, h)

  -- Which notes are tracked, and where.
  unfoldable pub tracked_notes : List (F × OwnedNoteWitness F) → List (F × F × ℕ)
  tracked_notes [] = []
  tracked_notes ((id, owned) ∷ notes) = (id, owned.note_id, owned.leaf_index) ∷ tracked_notes notes

  abbrev pub Frozen :
      ℕ
      → ℕ
      → List F
      → List (ℕ × F)
      → List (F × OwnedNoteWitness F)
      → Outcome (List (F × OwnedNoteWitness F) × List F)
      → Type 0
  Frozen sh q leaves places before r =
      (notes : List (F × OwnedNoteWitness F)) × (dirty : List F) × (r ≡ ok (notes, dirty))
      × (tracked_notes notes ≡ tracked_notes before)
      × All (Tracked sh q leaves places) notes

  -- `roll_over` finds the leaf of every note of the shard, and gives each a path to its root.
  pub freeze-Tracked :
      (d sh q : ℕ) (done live : List F) (notes₀ : List (F × OwnedNoteWitness F))
      (places : List (ℕ × F)) (dirty₀ : List F) (notes : List (F × OwnedNoteWitness F))
      (dirty : List F)
      → length done ≡ q * 2 ^ sh
      → length live ≡ 2 ^ sh
      → All (Tracked sh q (done ++ live) places) notes
      → Frozen sh
          (suc q)
          (done ++ live)
          places
          notes
          (freeze (sharded_of d sh q done live notes₀ places dirty₀) notes dirty)
  unfolding freeze sharded_of tracked_notes
  freeze-Tracked d sh q done live notes₀ places dirty₀ [] dirty h full all =
      ([], dirty, refl, refl, tt)
  freeze-Tracked d sh q done live notes₀ places dirty₀ ((id, owned) ∷ notes) dirty h full (t, all) =
      elim (Bool-cases (skips sh q owned.leaf_index owned.within_shard_siblings)) [
        | inl skip ↦
            let (notes', dirty', e, same, all') =
              freeze-Tracked d sh q done live notes₀ places dirty₀ notes dirty h full all in
            (
              (id, owned) ∷ notes',
              dirty',
              rw (length-tabulate q (shard sh done), skip, e, freeze),
              ap (λ ns. (id, owned.note_id, owned.leaf_index) ∷ ns) same,
              (
                record {
                  same_id = t.same_id;
                  indexed = t.indexed;
                  path =
                      keeps sh q (done ++ live) id owned.leaf_index owned.within_shard_siblings
                        t.path skip;
                },
                all',
              ),
            )
        | inr take ↦
            let place = owned.leaf_index in
            let within = place % 2 ^ sh in
            let (here, leaf) =
              takes sh q (done ++ live) id place owned.within_shard_siblings t.path take in
            let inside : within < length live =
              omega (arith, mod-lt place {m = 2 ^ sh} (pow_pos sh)) in
            let there : place < length (done ++ live) = omega (
              arith,
              length-append done live,
              div-add-mod place (2 ^ sh),
              ap (λ (j : ℕ). j * 2 ^ sh) here,
            ) in
            let mine : get_or live within fr.zero ≡ id =
              sym (live_leaf sh q done live place h here) ∙ leaf there in
            let note : is_note (Imt.leaf (tree_of sh fr.zero live) within) owned.note_id ≡ true =
              rw
                (
                  leaf-tree_of sh fr.zero live within,
                  get_elem?-get_or live within fr.zero inside,
                  mine,
                  t.same_id,
                )
                (same_refl id) in
            let (notes', dirty', e, same, all') =
              freeze-Tracked d sh q done live notes₀ places dirty₀ notes (add dirty owned.note_id) h
                full all in
            (
              (
                id,
                record owned {
                  within_shard_siblings = some (merkle_path sh (padded live fr.zero) within);
                },
              )
                  ∷ notes',
              dirty',
              rw (length-tabulate q (shard sh done), take, freeze)
                  (rw (note, create_proof_inside sh fr.zero live within inside, e)),
              ap (λ ns. (id, owned.note_id, owned.leaf_index) ∷ ns) same,
              (
                record {
                  same_id = t.same_id;
                  indexed = t.indexed;
                  path =
                      frozen (merkle_path sh (padded live fr.zero) within) (omega arith)
                        (length-merkle_path sh (padded live fr.zero) within)
                        (rw (leaf there) at (frozen_path sh q done live place h here));
                },
                all',
              ),
            )
      ]
