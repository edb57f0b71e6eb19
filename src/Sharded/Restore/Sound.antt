-- ===== src/Sharded/Restore/Sound.antt =====
-- What a restored tree stands for, whatever notes its snapshot lists.
use mathlib.Core.Path.{subst}
use rs_core.Prelude.{
  ℕ, ◌/◌, ◌%◌, ◌^◌, ◌≡◌, refl, List, [], ◌∷◌, Option, none, some, Bool, true, false, not, ◌||◌,
  arith, length, ltb, get_elem?, Bool-cases, Option-cases, inl, inr,
}
use rs_core.Outcome.{ok, ensure-ok, >>=-ok, ok_eq}
use rs_core.Assoc.{find, find_at, insert, insert_at}
use rs_core.Field.{Fr, same}
use rs_core.Proof.{hash_path}
use rs_core.Sharded.{ShardedNotesTree, OwnedNoteWitness, is_some, free_for}
use rs_core.Sharded.Owned.{PathOk}
use rs_core.Sharded.Notes.{verify_frozen_path, track}
use rs_core.Sharded.Holds.{Holds}
use rs_core.Sharded.Reads.{with_notes-Holds, track-Holds}
use rs_core.Sharded.Marks.{pending_note}
use rs_core.Sharded.Adopt.{frozen_note}
use rs_core.Sharded.Restore.{check_owned, restore_note, restore_notes}

module _ {F : Type 0} ⦃fr : Fr F⦄ where
  verify_frozen_path_ok :
      (t : ShardedNotesTree F) (id : F) (i : ℕ) (siblings : List F) {u : Unit {0}}
      → verify_frozen_path t id i siblings ≡ ok u
      → (root : F) × (length siblings ≡ t.shard_height)
        × (get_elem? t.completed_roots (i / 2 ^ t.shard_height) ≡ some root)
        × (same (hash_path id (i % t.shard_size) siblings).0 root ≡ true)
  unfolding verify_frozen_path
  verify_frozen_path_ok t id i siblings e =
      elim (Option-cases (get_elem? t.completed_roots (i / 2 ^ t.shard_height))) [
        | inr (root, there) ↦ (root, ground arith, there, ground arith)
        | inl absent ↦ absurd (ground arith)
      ]

  not_taken :
      (b : Bool) (place : Option F) (id : F)
      → not (b || is_some place) ≡ true
      → free_for place id ≡ true
  not_taken true place id e = cc
  not_taken false none id e = refl
  not_taken false (some other) id e = cc

  -- A note that passes the check has a path that is right for the leaves.
  check_owned-PathOk :
      (d sh : ℕ) (leaves : List F) (t : ShardedNotesTree F) (id : F) (i : ℕ)
      (path : Option (List F)) {u : Unit {0}}
      → (h : Holds d sh leaves t)
      → check_owned t (record { note_id = id; leaf_index = i; within_shard_siblings = path }) ≡ ok u
      → PathOk sh h.q leaves id i path
  unfolding check_owned
  check_owned-PathOk d sh leaves t id i none h e =
      elim (Bool-cases (ltb (i / 2 ^ t.shard_height) (length t.completed_roots))) [
        | inl completed ↦ let k = rw completed at e in cc
        | inr open_shard ↦
            let k = rw open_shard at e in
            pending_note d sh leaves t id i h open_shard (ground arith)
      ]
  check_owned-PathOk d sh leaves t id i (some siblings) h e =
      elim (Bool-cases (ltb (i / 2 ^ t.shard_height) (length t.completed_roots))) [
        | inl completed ↦
            let k = rw completed at e in
            let (root, size, there, top) = verify_frozen_path_ok t id i siblings k in
            frozen_note d sh leaves t id i siblings root h size there top
        | inr open_shard ↦ let k = rw open_shard at e in cc
      ]

  restore_note-Holds :
      (d sh : ℕ) (leaves : List F) (capacity : ℕ) (t : ShardedNotesTree F)
      (owned : OwnedNoteWitness F) {t' : ShardedNotesTree F}
      → Holds d sh leaves t
      → restore_note capacity t owned ≡ ok t'
      → Holds d sh leaves t'
  unfolding restore_note track
  restore_note-Holds d sh leaves capacity t owned {t'} h e =
      let (_, h1) = ensure-ok (ltb owned.leaf_index capacity) _ e in
      let (fresh, h2) =
        ensure-ok
          (not (
            is_some (find fr.eq t.owned_notes owned.note_id)
            || is_some (find_at t.owned_leaves owned.leaf_index)))
          _ h1 in
      let (_, checked, h3) = >>=-ok _ (check_owned t owned) h2 in
      let free : free_for (find_at t.owned_leaves owned.leaf_index) owned.note_id ≡ true =
        not_taken (is_some (find fr.eq t.owned_notes owned.note_id))
          (find_at t.owned_leaves owned.leaf_index) owned.note_id fresh in
      let right : PathOk sh h.q leaves owned.note_id owned.leaf_index owned.within_shard_siblings =
        check_owned-PathOk d sh leaves t owned.note_id owned.leaf_index owned.within_shard_siblings
          h checked in
      let held =
        track-Holds d sh leaves t owned.note_id owned.leaf_index owned.within_shard_siblings h free
          right in
      subst (λ (s : ShardedNotesTree F). Holds d sh leaves s) (ok_eq h3)
        (with_notes-Holds d sh leaves
          (track t owned.note_id owned.leaf_index owned.within_shard_siblings)
          (insert fr.eq t.owned_notes owned.note_id owned)
          (insert_at t.owned_leaves owned.leaf_index owned.note_id) t.dirty_owned_notes held
          held.tracked)

  pub restore_notes-Holds :
      (d sh : ℕ) (leaves : List F) (capacity : ℕ) (t : ShardedNotesTree F)
      (notes : List (OwnedNoteWitness F)) {t' : ShardedNotesTree F}
      → Holds d sh leaves t
      → restore_notes capacity t notes ≡ ok t'
      → Holds d sh leaves t'
  unfolding restore_notes
  restore_notes-Holds d sh leaves capacity t [] h e =
      subst (λ (s : ShardedNotesTree F). Holds d sh leaves s) (ok_eq e) h
  restore_notes-Holds d sh leaves capacity t (owned ∷ notes) h e =
      let (next, one, e') = >>=-ok _ (restore_note capacity t owned) e in
      restore_notes-Holds d sh leaves capacity next notes
        (restore_note-Holds d sh leaves capacity t owned h one) e'
