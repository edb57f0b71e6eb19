-- ===== src/Sharded/Marks.antt =====
-- `mark_owned` and `unmark_owned` keep what a sharded tree stands for.
use rs_core.Prelude.{
  ℕ, ◌+◌, ◌*◌, ◌/◌, ◌%◌, ◌^◌, ◌≤◌, ◌<◌, ◌≡◌, ◌⊎◌, sym, ap, ◌∙◌, List, [], ◌∷◌, ◌++◌, none, some,
  true, false, arith, length, length-append, ltb, ◌==◌, ◌&&◌, not, Bool-cases, inl, inr, get_or,
  get_elem?-get_or, lt→ltb, ==→eq, Option-cases,
}
use native.Mathlib.Nat.{div-add-mod, lt_of_mul-lt-mul_right}
use mathlib.Core.Path.{subst}
use rs_core.Outcome.{ok}
use rs_core.Assoc.{is_key, All, All-find, find, remove, find_at, remove_at, find_at-remove_at}
use rs_core.Field.{Fr, same}
use rs_core.Geometry.{tree_capacity}
use rs_core.Proof.Paths.{same_refl, eq_of_same}
use rs_core.Imt
use rs_core.Imt.Canonical.{tree_of, leaf-tree_of}
use rs_core.Sharded.{ShardedNotesTree, OwnedNoteWitness, is_note, free_for, leaf_count, discard}
use rs_core.Sharded.Canonical.{length-tabulate, shard}
use rs_core.Sharded.Owned.{PathOk, pending, Tracked, live_leaf}
use rs_core.Sharded.Notes.{mark_owned, unmark_owned, track}
use rs_core.Sharded.Holds.{Holds}
use rs_core.Sharded.Reads.{with_notes-Holds, track-Holds, reads}

module _ {F : Type 0} ⦃fr : Fr F⦄ where
  -- What a successful `mark_owned` has found.
  mark_owned_ok :
      (t t' : ShardedNotesTree F) (id : F) (i : ℕ)
      → mark_owned t id i ≡ ok t'
      → (t' ≡ t)
        ⊎ ((t' ≡ track t id i none)
            × (ltb (i / 2 ^ t.shard_height) (length t.completed_roots) ≡ false)
            × (free_for (find_at t.owned_leaves i) id ≡ true)
            × ((ltb i (leaf_count t) && not (is_note (Imt.leaf t.live (i % t.shard_size)) id))
                ≡ false))
  unfolding mark_owned tree_capacity
  mark_owned_ok t t' id i e = ground arith

  note_at :
      (sh : ℕ) (live : List F) (i : ℕ) (id : F)
      → is_note (Imt.leaf (tree_of sh fr.zero live) i) id ≡ true
      → i < length live
      → get_or live i fr.zero ≡ id
  note_at sh live i id e inside =
      eq_of_same (get_or live i fr.zero) id
        (rw (leaf-tree_of sh fr.zero live i, get_elem?-get_or live i fr.zero inside) at e)

  -- A place behind the completed shards is one of the live shard if it has a leaf.
  pub live_place :
      (sh q : ℕ) (done live : List F) (i : ℕ)
      → length done ≡ q * 2 ^ sh
      → length live < 2 ^ sh
      → q ≤ i / 2 ^ sh
      → i < length (done ++ live)
      → (i / 2 ^ sh ≡ q) × (i % 2 ^ sh < length live)
  live_place sh q done live i h k low inside =
      let below : i / 2 ^ sh < q + 1 =
        lt_of_mul-lt-mul_right (2 ^ sh)
          (omega (arith, div-add-mod i (2 ^ sh), length-append done live)) in
      let here : i / 2 ^ sh ≡ q = omega arith in
      (
        here,
        omega (
          arith,
          div-add-mod i (2 ^ sh),
          length-append done live,
          ap (λ (j : ℕ). j * 2 ^ sh) here,
        ),
      )

  pub pending_note :
      (d sh : ℕ) (leaves : List F) (t : ShardedNotesTree F) (id : F) (i : ℕ)
      → (h : Holds d sh leaves t) → ltb (i / 2 ^ t.shard_height) (length t.completed_roots) ≡ false
      → (ltb i (leaf_count t) && not (is_note (Imt.leaf t.live (i % t.shard_size)) id)) ≡ false
      → PathOk sh h.q leaves id i none
  pending_note d sh leaves t id i h low note =
      let r = reads d sh leaves t h in
      let behind : h.q ≤ i / 2 ^ sh =
        ground (arith, rw (r.height, r.roots, length-tabulate h.q (shard sh h.done)) at low) in
      pending behind (λ inside.
        let inside' : i < length (h.done ++ h.live) = omega (arith, ap (λ ls. length ls) h.whole) in
        let (here, within) = live_place sh h.q h.done h.live i h.count h.part behind inside' in
        let there : is_note (Imt.leaf (tree_of sh fr.zero h.live) (i % 2 ^ sh)) id ≡ true = ground (
          arith,
          rw (r.leaf_total, r.live_tree, r.size, lt→ltb i (length leaves) inside) at note,
        ) in
        ap (λ ls. get_or ls i fr.zero) (sym h.whole)
        ∙ live_leaf sh h.q h.done h.live i h.count here
        ∙ note_at sh h.live (i % 2 ^ sh) id there within)

  -- A successful `mark_owned` keeps the leaves that a tree stands for.
  pub mark_owned-Holds :
      (d sh : ℕ) (leaves : List F) (t t' : ShardedNotesTree F) (id : F) (i : ℕ)
      → Holds d sh leaves t
      → mark_owned t id i ≡ ok t'
      → Holds d sh leaves t'
  mark_owned-Holds d sh leaves t t' id i h e = elim (mark_owned_ok t t' id i e) [
    | inl same ↦ subst (λ s. Holds d sh leaves s) (sym same) h
    | inr (new, low, free, note) ↦
        subst (λ s. Holds d sh leaves s) (sym new)
          (track-Holds d sh leaves t id i none h free (pending_note d sh leaves t id i h low note))
  ]

  Tracked-remove :
      (sh q : ℕ) (leaves : List F) (places : List (ℕ × F)) (id : F) (i : ℕ)
      (notes : List (F × OwnedNoteWitness F))
      → find_at places i ≡ some id
      → All (Tracked sh q leaves places) notes
      → All (Tracked sh q leaves (remove_at places i)) (remove fr.eq notes id)
  unfolding remove
  Tracked-remove sh q leaves places id i [] e all = tt
  Tracked-remove sh q leaves places id i ((k, o) ∷ notes) e (t, all) =
      elim (Bool-cases (is_key fr.eq id k)) [
        | inl gone ↦ rw gone (Tracked-remove sh q leaves places id i notes e all)
        | inr stays ↦ rw stays (
          record {
            same_id = t.same_id;
            indexed =
                find_at-remove_at places i o.leaf_index ∙ (elim (Bool-cases (o.leaf_index == i)) [
                  | inl here ↦
                      let met : some k ≡ some id =
                        sym t.indexed ∙ ap (find_at places) (==→eq o.leaf_index i here) ∙ e in
                      let same_key : k ≡ id = ground (arith, met) in
                      absurd (ground (arith, rw same_key at stays, same_refl id))
                  | inr away ↦ rw away t.indexed
                ]);
            path = t.path;
          },
          Tracked-remove sh q leaves places id i notes e all,
        )
      ]

  -- `unmark_owned` keeps the leaves that a tree stands for, and the other notes tracked.
  pub unmark_owned-Holds :
      (d sh : ℕ) (leaves : List F) (t : ShardedNotesTree F) (id : F)
      → Holds d sh leaves t
      → Holds d sh leaves (unmark_owned t id).0
  unfolding unmark_owned
  unmark_owned-Holds d sh leaves t id h = elim (Option-cases (find fr.eq t.owned_notes id)) [
    | inl absent ↦
        rw (absent, unmark_owned)
          (with_notes-Holds d sh leaves t t.owned_notes t.owned_leaves
            (discard t.dirty_owned_notes id) h h.tracked)
    | inr (o, there) ↦
        let tracked =
          All-find fr.eq (Tracked sh h.q leaves t.owned_leaves) t.owned_notes id h.tracked there in
        rw (there, unmark_owned)
          (with_notes-Holds d sh leaves t (remove fr.eq t.owned_notes id)
            (remove_at t.owned_leaves o.leaf_index) (discard t.dirty_owned_notes id) h
            (Tracked-remove sh h.q leaves t.owned_leaves id o.leaf_index t.owned_notes
              tracked.indexed h.tracked))
  ]
