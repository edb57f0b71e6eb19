-- ===== src/Sharded/Restore/Complete.antt =====
-- A tree that stands for leaves is restored from its own snapshot.
use mathlib.Core.Path.{subst}
use rs_core.Prelude.{
  ℕ, ◌*◌, ◌/◌, ◌%◌, ◌^◌, ◌≤◌, ◌<◌, ◌≡◌, refl, sym, ap, ◌∙◌, List, [], ◌∷◌, ◌++◌, Option, none, some,
  true, false, arith, length, ltb, get_elem?, get_or, get_elem?-get_or, Bool-cases, inl, inr,
  lt→ltb, le→ltb, eq→==, neq→==,
}
use rs_core.Outcome.{ok}
use rs_core.Assoc.{All, is_key, find, find_at, insert, insert_at, find_at-insert_at}
use rs_core.Field.{Fr}
use rs_core.Proof.{hash_path}
use rs_core.Proof.Paths.{same_refl}
use rs_core.Imt
use rs_core.Imt.Canonical.{tree_of, leaf-tree_of}
use rs_core.Sharded.{ShardedNotesTree, OwnedNoteWitness, is_note}
use rs_core.Sharded.Canonical.{
  tabulate, length-tabulate, get_or-tabulate, shard, shard_done, sharded_of,
}
use rs_core.Sharded.Owned.{PathOk, frozen, pending, Tracked, live_leaf}
use rs_core.Sharded.Notes.{verify_frozen_path}
use rs_core.Sharded.Holds.{Holds, leaf_count-sharded_of}
use rs_core.Sharded.Marks.{live_place}
use rs_core.Sharded.Restore.{
  check_owned, restore_note, restore_notes, from_snapshot, snapshot, owned_notes, values,
  sort_by_leaf,
}
use rs_core.Sharded.Restore.Lists.{
  Apart, Distinct, All-sort_by_leaf, Distinct-sort_by_leaf, find_note, find_note-sort_by_leaf,
  find_note-values, find-insert, is_key_other, is_key_eq,
}
use rs_core.Sharded.Restore.Sound.{restore_notes-Holds}
use rs_core.Sharded.Restore.Start.{stored, from_snapshot-stored, base-Holds}

abbrev or_else : {A : Type 0} → Option A → Option A → Option A
or_else none b = b
or_else (some a) b = some a

or_else-none : {A : Type 0} (a : Option A) → or_else a none ≡ a
or_else-none none = refl
or_else-none (some a) = refl

module _ {F : Type 0} ⦃fr : Fr F⦄ where
  tabulate_elem : (q : ℕ) (g : ℕ → F) (j : ℕ) → j < q → get_elem? (tabulate q g) j ≡ some (g j)
  tabulate_elem q g j h =
      get_elem?-get_or (tabulate q g) j (g j) (omega (arith, length-tabulate q g))
      ∙ ap some (get_or-tabulate q g j (g j) ∙ rw (lt→ltb j q h))

  live_note :
      (sh q : ℕ) (done live : List F) (id : F) (i : ℕ)
      → length done ≡ q * 2 ^ sh
      → i / 2 ^ sh ≡ q
      → i % 2 ^ sh < length live
      → get_or (done ++ live) i fr.zero ≡ id
      → is_note (Imt.leaf (tree_of sh fr.zero live) (i % 2 ^ sh)) id ≡ true
  live_note sh q done live id i h here within e =
      let there : get_elem? live (i % 2 ^ sh) ≡ some id =
        get_elem?-get_or live (i % 2 ^ sh) fr.zero within
        ∙ ap some (sym (live_leaf sh q done live i h here) ∙ e) in
      rw (leaf-tree_of sh fr.zero live (i % 2 ^ sh), there) (same_refl id)

  -- A note with the right path passes the check.
  check_owned_lem :
      (d sh q : ℕ) (done live : List F) (notes : List (F × OwnedNoteWitness F))
      (places : List (ℕ × F)) (id : F) (i : ℕ) (path : Option (List F))
      → length done ≡ q * 2 ^ sh
      → length live < 2 ^ sh
      → PathOk sh q (done ++ live) id i path
      → check_owned
          (sharded_of d sh q done live notes places [])
          (record { note_id = id; leaf_index = i; within_shard_siblings = path })
        ≡ ok tt
  unfolding check_owned verify_frozen_path sharded_of
  check_owned_lem d sh q done live notes places id i (some _) h k (frozen siblings low size top) =
      let root : (hash_path id (i % 2 ^ sh) siblings).0 ≡ shard sh done (i / 2 ^ sh) =
        ap (λ r. r.0) top ∙ shard_done sh q (i / 2 ^ sh) done live h low in
      rw (
        length-tabulate q (shard sh done),
        lt→ltb (i / 2 ^ sh) q low,
        eq→== (length siblings) sh size,
        tabulate_elem q (shard sh done) (i / 2 ^ sh) low,
        root,
        same_refl (shard sh done (i / 2 ^ sh)),
      )
  check_owned_lem d sh q done live notes places id i none h k (pending low e) =
      rw
        (
          length-tabulate q (shard sh done),
          le→ltb (i / 2 ^ sh) q low,
          leaf_count-sharded_of d sh q done live notes places [] h,
        )
        (elim (Bool-cases (ltb i (length (done ++ live)))) [
          | inr behind ↦ rw behind
          | inl inside ↦
              let (here, within) = live_place sh q done live i h k low (ground arith) in
              rw (inside, live_note sh q done live id i h here within (e (ground arith)))
        ])

  -- The maps that the notes of a snapshot are put into.
  unfoldable pub insert_notes :
      List (F × OwnedNoteWitness F) → List (OwnedNoteWitness F) → List (F × OwnedNoteWitness F)
  insert_notes m [] = m
  insert_notes m (owned ∷ notes) = insert_notes (insert fr.eq m owned.note_id owned) notes

  unfoldable pub insert_places : List (ℕ × F) → List (OwnedNoteWitness F) → List (ℕ × F)
  insert_places places [] = places
  insert_places places (owned ∷ notes) =
      insert_places (insert_at places owned.leaf_index owned.note_id) notes

  -- A note that the maps do not have.
  abbrev Fresh : List (F × OwnedNoteWitness F) → List (ℕ × F) → OwnedNoteWitness F → Type 0
  Fresh m places owned =
      (find fr.eq m owned.note_id ≡ none) × (find_at places owned.leaf_index ≡ none)

  -- A note of the tree: in range, and with the right path.
  abbrev pub NoteOk : ℕ → ℕ → ℕ → List F → OwnedNoteWitness F → Type 0
  NoteOk d sh q leaves owned =
      (owned.leaf_index < 2 ^ d)
      × PathOk sh q leaves owned.note_id owned.leaf_index owned.within_shard_siblings

  Fresh-insert :
      (m : List (F × OwnedNoteWitness F)) (places : List (ℕ × F)) (owned : OwnedNoteWitness F)
      (notes : List (OwnedNoteWitness F))
      → All (Apart owned) notes
      → All (Fresh m places) notes
      → All
          (Fresh
            (insert fr.eq m owned.note_id owned)
            (insert_at places owned.leaf_index owned.note_id))
          notes
  Fresh-insert m places owned [] a h = tt
  Fresh-insert m places owned (next ∷ notes) ((i, p), a) ((f, g), h) = (
    (
      find-insert m owned.note_id next.note_id owned
          ∙ rw (is_key_other next.note_id owned.note_id (λ e. i (sym e))) f,
      find_at-insert_at places owned.leaf_index next.leaf_index owned.note_id
          ∙ rw (neq→== next.leaf_index owned.leaf_index (λ e. p (sym e))) g,
    ),
    Fresh-insert m places owned notes a h,
  )

  restore_note_lem :
      (d sh q : ℕ) (done live : List F) (m : List (F × OwnedNoteWitness F)) (places : List (ℕ × F))
      (owned : OwnedNoteWitness F)
      → length done ≡ q * 2 ^ sh
      → length live < 2 ^ sh
      → NoteOk d sh q (done ++ live) owned
      → Fresh m places owned
      → restore_note (2 ^ d) (sharded_of d sh q done live m places []) owned
        ≡ ok (
            sharded_of d sh q done live
              (insert fr.eq m owned.note_id owned)
              (insert_at places owned.leaf_index owned.note_id)
              [])
  unfolding restore_note sharded_of
  restore_note_lem d sh q done live m places owned h k (low, path) (f, g) = rw (
    lt→ltb owned.leaf_index (2 ^ d) low,
    f,
    g,
    check_owned_lem d sh q done live m places owned.note_id owned.leaf_index
        owned.within_shard_siblings h k path,
  )

  find_note_absent :
      (notes : List (OwnedNoteWitness F)) (owned : OwnedNoteWitness F) (id : F)
      → All (Apart owned) notes
      → is_key fr.eq id owned.note_id ≡ true
      → find_note notes id ≡ none
  unfolding find_note
  find_note_absent [] owned id a here = refl
  find_note_absent (next ∷ notes) owned id ((i, _), a) here =
      let other : is_key fr.eq id next.note_id ≡ false =
        is_key_other id next.note_id (λ e. i (sym (is_key_eq id owned.note_id here) ∙ e)) in
      rw (other, find_note_absent notes owned id a here)

  restore_notes_lem :
      (d sh q : ℕ) (done live : List F) (m : List (F × OwnedNoteWitness F)) (places : List (ℕ × F))
      (notes : List (OwnedNoteWitness F))
      → length done ≡ q * 2 ^ sh
      → length live < 2 ^ sh
      → All (NoteOk d sh q (done ++ live)) notes
      → Distinct notes
      → All (Fresh m places) notes
      → restore_notes (2 ^ d) (sharded_of d sh q done live m places []) notes
        ≡ ok (sharded_of d sh q done live (insert_notes m notes) (insert_places places notes) [])
  unfolding restore_notes insert_notes insert_places
  restore_notes_lem d sh q done live m places [] h k ok_notes distinct fresh = refl
  restore_notes_lem d sh q done live m places (owned ∷ notes) h k ((low, path), all) (a, distinct)
        ((f, g), fresh) =
      rw (restore_note_lem d sh q done live m places owned h k (low, path) (f, g)) (
        restore_notes_lem d sh q done live (insert fr.eq m owned.note_id owned)
          (insert_at places owned.leaf_index owned.note_id) notes h k all distinct
          (Fresh-insert m places owned notes a fresh))

  find-insert_notes :
      (m : List (F × OwnedNoteWitness F)) (notes : List (OwnedNoteWitness F)) (id : F)
      → Distinct notes
      → find fr.eq (insert_notes m notes) id ≡ or_else (find_note notes id) (find fr.eq m id)
  unfolding insert_notes find_note
  find-insert_notes m [] id h = refl
  find-insert_notes m (owned ∷ notes) id (a, h) =
      find-insert_notes (insert fr.eq m owned.note_id owned) notes id h
      ∙ elim (Bool-cases (is_key fr.eq id owned.note_id)) [
        | inl here ↦
            rw (here, find_note_absent notes owned id a here, find-insert m owned.note_id id owned)
              (rw here)
        | inr away ↦ rw (away, find-insert m owned.note_id id owned) (rw away)
      ]

  values-NoteOk :
      (d sh q : ℕ) (leaves : List F) (places : List (ℕ × F)) (m : List (F × OwnedNoteWitness F))
      → All (Tracked sh q leaves places) m
      → All (λ owned. owned.leaf_index < 2 ^ d) (values m)
      → All (NoteOk d sh q leaves) (values m)
  unfolding values
  values-NoteOk d sh q leaves places [] h low = tt
  values-NoteOk d sh q leaves places ((k, owned) ∷ m) (t, h) (i, low) = (
    (
      i,
      subst (λ (id : F). PathOk sh q leaves id owned.leaf_index owned.within_shard_siblings)
          (sym t.same_id) t.path,
    ),
    values-NoteOk d sh q leaves places m h low,
  )

  All-Fresh : (notes : List (OwnedNoteWitness F)) → All (Fresh [] []) notes
  unfolding find find_at
  All-Fresh [] = tt
  All-Fresh (owned ∷ notes) = ((refl, refl), All-Fresh notes)

  snapshot-stored :
      (d sh : ℕ) (leaves : List F) (t : ShardedNotesTree F) (h : Holds d sh leaves t)
      → snapshot t ≡ stored d sh h.q h.done h.live (sort_by_leaf (values t.owned_notes))
  unfolding snapshot stored owned_notes sharded_of
  snapshot-stored d sh leaves t h = ap snapshot h.state

  -- The snapshot of a state that stands for `leaves` is restored, whenever the tree's owned notes
  -- are within its capacity and differ in their ids and places: the restored state stands for the
  -- same leaves and has the same note under every id.
  pub from_snapshot-snapshot :
      (d sh : ℕ) (leaves : List F) (t : ShardedNotesTree F)
      → Holds d sh leaves t
      → 0 < sh
      → All (λ owned. owned.leaf_index < 2 ^ d) (values t.owned_notes)
      → Distinct (values t.owned_notes)
      → (t' : ShardedNotesTree F) × (from_snapshot (snapshot t) ≡ ok t')
        × Holds d sh leaves t'
        × ((id : F) → find fr.eq t'.owned_notes id ≡ find fr.eq t.owned_notes id)
  unfolding find
  from_snapshot-snapshot d sh leaves t h p low distinct =
      let notes : List (OwnedNoteWitness F) = sort_by_leaf (values t.owned_notes) in
      let base = sharded_of d sh h.q h.done h.live [] [] [] in
      let end =
        sharded_of d sh h.q h.done h.live (insert_notes [] notes) (insert_places [] notes) [] in
      let tracked : All (Tracked sh h.q (h.done ++ h.live) t.owned_leaves) t.owned_notes =
        subst (λ ls. All (Tracked sh h.q ls t.owned_leaves) t.owned_notes) (sym h.whole)
          h.tracked in
      let all : All (NoteOk d sh h.q (h.done ++ h.live)) notes =
        All-sort_by_leaf (NoteOk d sh h.q (h.done ++ h.live)) (values t.owned_notes)
          (values-NoteOk d sh h.q (h.done ++ h.live) t.owned_leaves t.owned_notes tracked low) in
      let apart : Distinct notes = Distinct-sort_by_leaf (values t.owned_notes) distinct in
      let room : length (h.done ++ h.live) ≤ 2 ^ d =
        omega (arith, h.room, ap (λ ls. length ls) h.whole) in
      let run : restore_notes (2 ^ d) base notes ≡ ok end =
        restore_notes_lem d sh h.q h.done h.live [] [] notes h.count h.part all apart
          (All-Fresh notes) in
      (
        end,
        ap from_snapshot (snapshot-stored d sh leaves t h)
            ∙ from_snapshot-stored d sh h.q h.done h.live notes h.constructible p h.cut h.count
                h.part room
            ∙ run,
        subst (λ ls. Holds d sh ls end) h.whole
            (restore_notes-Holds d sh (h.done ++ h.live) (2 ^ d) base notes
              (base-Holds d sh h.q h.done h.live h.constructible h.cut h.count h.part room) run),
        λ id.
            unfold sharded_of in
            (find-insert_notes [] notes id apart
              ∙ or_else-none (find_note notes id)
              ∙ find_note-sort_by_leaf (values t.owned_notes) id distinct
              ∙ find_note-values sh h.q leaves t.owned_leaves t.owned_notes id h.tracked),
      )
