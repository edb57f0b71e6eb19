-- ===== src/Sharded/Reads.antt =====
-- What the operations on owned notes read of a sharded tree, and what they may change in it.
use rs_core.Prelude.{
  ℕ, ◌^◌, ◌≡◌, refl, sym, ap, ◌∙◌, List, [], ◌∷◌, Option, some, true, length, ◌==◌, Bool-cases, inl,
  inr, eq→==, ==→eq,
}
use rs_core.Assoc.{All, All-insert, insert, find_at, insert_at, find_at-insert_at}
use rs_core.Field.{Fr}
use rs_core.Proof.Paths.{eq_of_same}
use rs_core.Imt.Canonical.{tree_of}
use rs_core.Sharded.{ShardedNotesTree, OwnedNoteWitness, free_for, leaf_count, add}
use rs_core.Sharded.Canonical.{tabulate, shard, sharded_of}
use rs_core.Sharded.Owned.{PathOk, Tracked}
use rs_core.Sharded.Notes.{track}
use rs_core.Sharded.Holds.{Holds, leaf_count-sharded_of}

module _ {F : Type 0} ⦃fr : Fr F⦄ where
  -- A note that may take a place takes it from no other note.
  Tracked-insert_at :
      (sh q : ℕ) (leaves : List F) (places : List (ℕ × F)) (id : F) (i : ℕ)
      (notes : List (F × OwnedNoteWitness F))
      → free_for (find_at places i) id ≡ true
      → All (Tracked sh q leaves places) notes
      → All (Tracked sh q leaves (insert_at places i id)) notes
  Tracked-insert_at sh q leaves places id i [] free all = tt
  Tracked-insert_at sh q leaves places id i ((k, o) ∷ notes) free (t, all) = (
    record { same_id = t.same_id; indexed = at_place; path = t.path },
    Tracked-insert_at sh q leaves places id i notes free all,
  )
    where
      at_place : find_at (insert_at places i id) o.leaf_index ≡ some k
      at_place =
          find_at-insert_at places i o.leaf_index id ∙ elim (Bool-cases (o.leaf_index == i)) [
            | inl e ↦
                rw e (
                  sym
                    (ap some (eq_of_same k id (rw (← ==→eq o.leaf_index i e, t.indexed) at free))))
            | inr e ↦ rw e t.indexed
          ]

  -- The owned notes may change as long as they are tracked.
  pub with_notes-Holds :
      (d sh : ℕ) (leaves : List F) (t : ShardedNotesTree F) (notes : List (F × OwnedNoteWitness F))
      (places : List (ℕ × F)) (dirty : List F)
      → (h : Holds d sh leaves t) → All (Tracked sh h.q leaves places) notes
      → Holds d sh leaves
          (record t { owned_leaves = places; owned_notes = notes; dirty_owned_notes = dirty })
  with_notes-Holds d sh leaves t notes places dirty h all = record {
    constructible = h.constructible;
    cut = h.cut;
    q = h.q;
    done = h.done;
    live = h.live;
    whole = h.whole;
    count = h.count;
    part = h.part;
    room = h.room;
    state =
        unfold sharded_of in
        ap {A = ShardedNotesTree F} {B = ShardedNotesTree F}
          (λ s. record s { owned_leaves = places; owned_notes = notes; dirty_owned_notes = dirty })
          h.state;
    tracked = all;
  }

  pub track-Holds :
      (d sh : ℕ) (leaves : List F) (t : ShardedNotesTree F) (id : F) (i : ℕ)
      (path : Option (List F))
      → (h : Holds d sh leaves t) → free_for (find_at t.owned_leaves i) id ≡ true
      → PathOk sh h.q leaves id i path
      → Holds d sh leaves (track t id i path)
  unfolding track
  track-Holds d sh leaves t id i path h free ok_path =
      let note : OwnedNoteWitness F = record {
        note_id = id;
        leaf_index = i;
        within_shard_siblings = path;
      } in
      with_notes-Holds d sh leaves t (insert fr.eq t.owned_notes id note)
        (insert_at t.owned_leaves i id) (add t.dirty_owned_notes id) h
        (All-insert fr.eq (Tracked sh h.q leaves (insert_at t.owned_leaves i id)) t.owned_notes id
          note (Tracked-insert_at sh h.q leaves t.owned_leaves id i t.owned_notes free h.tracked)
          (record {
            same_id = refl;
            indexed = find_at-insert_at t.owned_leaves i i id ∙ rw (eq→== i i refl);
            path = ok_path;
          }))

  -- What the operations read of a state that stands for leaves.
  pub record Reads (d sh : ℕ) (leaves : List F) (t : ShardedNotesTree F) (q : ℕ)
      (done live : List F) : Type 0 where
    pub height : t.shard_height ≡ sh
    pub size : t.shard_size ≡ 2 ^ sh
    pub roots : t.completed_roots ≡ tabulate q (shard sh done)
    pub leaf_total : leaf_count t ≡ length leaves
    pub live_tree : t.live ≡ tree_of sh fr.zero live

  pub reads :
      (d sh : ℕ) (leaves : List F) (t : ShardedNotesTree F) (h : Holds d sh leaves t)
      → Reads d sh leaves t h.q h.done h.live
  unfolding sharded_of
  reads d sh leaves t h = record {
    height = ap (λ s. s.shard_height) h.state;
    size = ap (λ s. s.shard_size) h.state;
    roots = ap (λ s. s.completed_roots) h.state;
    leaf_total =
        ap leaf_count h.state
        ∙ leaf_count-sharded_of d sh h.q h.done h.live t.owned_notes t.owned_leaves
            t.dirty_owned_notes h.count
        ∙ ap (λ ls. length ls) h.whole;
    live_tree = ap (λ s. s.live) h.state;
  }
