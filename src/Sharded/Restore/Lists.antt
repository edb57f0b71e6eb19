-- ===== src/Sharded/Restore/Lists.antt =====
-- Lists of owned notes with distinct ids and places: their order, and the maps built of them.
use rs_core.Prelude.{
  ℕ, ◌≡◌, ◌≢◌, refl, sym, ap, ◌∙◌, List, [], ◌∷◌, Option, none, some, true, false, leb,
  if◌then◌else◌, Bool-cases, inl, inr,
}
use rs_core.Assoc.{All, is_key, find, insert}
use rs_core.Field.{Fr}
use rs_core.Sharded.{OwnedNoteWitness}
use rs_core.Sharded.Owned.{Tracked}
use rs_core.Sharded.Restore.{place_note, sort_by_leaf, values}

-- Different notes at different places.
abbrev pub Apart : {F : Type 0} → OwnedNoteWitness F → OwnedNoteWitness F → Type 0
Apart a b = (a.note_id ≢ b.note_id) × (a.leaf_index ≢ b.leaf_index)

abbrev pub Distinct : {F : Type 0} → List (OwnedNoteWitness F) → Type 0
Distinct [] = Unit
Distinct (owned ∷ notes) = All (Apart owned) notes × Distinct notes

Apart-sym : {F : Type 0} (a b : OwnedNoteWitness F) → Apart a b → Apart b a
Apart-sym a b (i, p) = (λ e. i (sym e), λ e. p (sym e))

module _ {F : Type 0} ⦃fr : Fr F⦄ where
  is_key_refl : (k : F) → is_key fr.eq k k ≡ true
  is_key_refl k = elim (fr.eq k k) as (λ d. elim d [ yes _ ↦ true | no _ ↦ false ] ≡ true) [
    | yes _ ↦ refl
    | no n ↦ absurd (n refl)
  ]

  pub is_key_other : (a b : F) → a ≢ b → is_key fr.eq a b ≡ false
  is_key_other a b h = elim (fr.eq a b) as (λ d. elim d [ yes _ ↦ true | no _ ↦ false ] ≡ false) [
    | yes e ↦ absurd (h e)
    | no _ ↦ refl
  ]

  pub is_key_eq : (a b : F) → is_key fr.eq a b ≡ true → a ≡ b
  is_key_eq a b = elim (fr.eq a b) as (λ d. elim d [ yes _ ↦ true | no _ ↦ false ] ≡ true → a ≡ b) [
    | yes e ↦ λ _. e
    | no _ ↦ λ h. cc
  ]

  pub All-place_note :
      (P : OwnedNoteWitness F → Type 0) (owned : OwnedNoteWitness F)
      (notes : List (OwnedNoteWitness F))
      → P owned
      → All P notes
      → All P (place_note owned notes)
  unfolding place_note
  All-place_note P owned [] p h = (p, tt)
  All-place_note P owned (next ∷ notes) p (q, h) =
      elim (Bool-cases (leb owned.leaf_index next.leaf_index)) [
        | inl first ↦ rw first (p, (q, h))
        | inr later ↦ rw later (q, All-place_note P owned notes p h)
      ]

  pub All-sort_by_leaf :
      (P : OwnedNoteWitness F → Type 0) (notes : List (OwnedNoteWitness F))
      → All P notes
      → All P (sort_by_leaf notes)
  unfolding sort_by_leaf
  All-sort_by_leaf P [] h = tt
  All-sort_by_leaf P (owned ∷ notes) (p, h) =
      All-place_note P owned (sort_by_leaf notes) p (All-sort_by_leaf P notes h)

  Distinct-place_note :
      (owned : OwnedNoteWitness F) (notes : List (OwnedNoteWitness F))
      → All (Apart owned) notes
      → Distinct notes
      → Distinct (place_note owned notes)
  unfolding place_note
  Distinct-place_note owned [] a h = (tt, tt)
  Distinct-place_note owned (next ∷ notes) (b, a) (c, h) =
      elim (Bool-cases (leb owned.leaf_index next.leaf_index)) [
        | inl first ↦ rw first ((b, a), (c, h))
        | inr later ↦ rw later (
          All-place_note (Apart next) owned notes (Apart-sym owned next b) c,
          Distinct-place_note owned notes a h,
        )
      ]

  pub Distinct-sort_by_leaf :
      (notes : List (OwnedNoteWitness F)) → Distinct notes → Distinct (sort_by_leaf notes)
  unfolding sort_by_leaf
  Distinct-sort_by_leaf [] h = tt
  Distinct-sort_by_leaf (owned ∷ notes) (a, h) =
      Distinct-place_note owned (sort_by_leaf notes) (All-sort_by_leaf (Apart owned) notes a)
        (Distinct-sort_by_leaf notes h)

  -- The first note of that id.
  unfoldable pub find_note : List (OwnedNoteWitness F) → F → Option (OwnedNoteWitness F)
  find_note [] id = none
  find_note (owned ∷ notes) id =
      if is_key fr.eq id owned.note_id then some owned else find_note notes id

  find_note-place_note :
      (owned : OwnedNoteWitness F) (notes : List (OwnedNoteWitness F)) (id : F)
      → All (Apart owned) notes
      → find_note (place_note owned notes) id ≡ find_note (owned ∷ notes) id
  unfolding find_note place_note
  find_note-place_note owned [] id a = refl
  find_note-place_note owned (next ∷ notes) id (b, a) =
      elim (Bool-cases (leb owned.leaf_index next.leaf_index)) [
        | inl first ↦ rw first
        | inr later ↦
            rw (later, find_note-place_note owned notes id a)
              (elim (Bool-cases (is_key fr.eq id next.note_id)) [
                | inr other ↦ rw other
                | inl here ↦
                    let away : id ≢ owned.note_id =
                      λ e. b.0 (sym e ∙ is_key_eq id next.note_id here) in
                    rw (here, is_key_other id owned.note_id away)
              ])
      ]

  pub find_note-sort_by_leaf :
      (notes : List (OwnedNoteWitness F)) (id : F)
      → Distinct notes
      → find_note (sort_by_leaf notes) id ≡ find_note notes id
  unfolding find_note sort_by_leaf
  find_note-sort_by_leaf [] id h = refl
  find_note-sort_by_leaf (owned ∷ notes) id (a, h) =
      find_note-place_note owned (sort_by_leaf notes) id (All-sort_by_leaf (Apart owned) notes a)
      ∙ rw (find_note-sort_by_leaf notes id h)

  pub find_note-values :
      (sh q : ℕ) (leaves : List F) (places : List (ℕ × F)) (m : List (F × OwnedNoteWitness F))
      (id : F)
      → All (Tracked sh q leaves places) m
      → find_note (values m) id ≡ find fr.eq m id
  unfolding find_note values find
  find_note-values sh q leaves places [] id h = refl
  find_note-values sh q leaves places ((k, owned) ∷ m) id (t, h) =
      rw (t.same_id, find_note-values sh q leaves places m id h)

  pub find-insert :
      (m : List (F × OwnedNoteWitness F)) (k x : F) (v : OwnedNoteWitness F)
      → find fr.eq (insert fr.eq m k v) x ≡ (if is_key fr.eq x k then some v else find fr.eq m x)
  unfolding find insert
  find-insert [] k x v = refl
  find-insert ((j, w) ∷ m) k x v = elim (Bool-cases (is_key fr.eq k j)) [
    | inl same ↦
        rw (same, is_key_eq k j same)
          (elim (Bool-cases (is_key fr.eq x j)) [ inl e ↦ rw e | inr e ↦ rw e ])
    | inr other ↦
        rw (other, find-insert m k x v)
          (elim (Bool-cases (is_key fr.eq x j)) [
            | inr e ↦ rw e
            | inl e ↦
                let away : x ≢ k = λ e'.
                  let k-eq : k ≡ j = sym e' ∙ is_key_eq x j e in
                  cc (other, ap (λ y. is_key fr.eq y j) k-eq, is_key_refl j) in
                rw (e, is_key_other x k away)
          ])
  ]
