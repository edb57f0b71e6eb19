-- ===== src/Sharded/Adopt.antt =====
-- `adopt_frozen_witness` keeps what a sharded tree stands for.
use rs_core.Prelude.{
  ℕ, ◌+◌, ◌*◌, ◌≤◌, ◌==◌, ==→eq, length-append, Option, none, ◌/◌, ◌%◌, ◌^◌, ◌<◌, ◌≡◌, sym, ap, ap₂,
  ◌∙◌, List, some, true, arith, length, ltb, Bool-cases, inl, inr, get_elem?, get_elem?-get_or,
  get_elem?_beyond, Option-cases,
}
use native.Mathlib.Nat.{div-eq_of_lt, mod-lt, mul-le-mul_right}
use rs_core.Prelude.Halves.{pow_pos}
use mathlib.Core.Path.{subst}
use rs_core.Outcome.{
  Outcome, ok, ◌>>◌, ensure, ensure-ok, duplicate_owned_leaf, shard_not_completed,
}
use rs_core.Assoc.{find, find_at}
use rs_core.Field.{Fr, same}
use rs_core.Proof.{hash_path}
use rs_core.Proof.Paths.{eq_of_same}
use rs_core.Sharded.{ShardedNotesTree, OwnedNoteWitness, free_for}
use rs_core.Sharded.Canonical.{tabulate, length-tabulate, get_or-tabulate, shard_done, shard}
use rs_core.Sharded.Owned.{PathOk, frozen}
use rs_core.Sharded.Notes.{adopt_frozen_witness, verify_frozen_path, track}
use rs_core.Sharded.Glue.{hash_path_low}
use rs_core.Sharded.Holds.{Holds}
use rs_core.Sharded.Reads.{track-Holds, reads}

module _ {F : Type 0} ⦃fr : Fr F⦄ where
  -- A note that is tracked already is tracked at that place.
  abbrev pub AtPlace : ℕ → Option (OwnedNoteWitness F) → Type 0
  AtPlace i none = Unit {0}
  AtPlace i (some owned) = owned.leaf_index ≡ i

  existing_ok :
      (i : ℕ) (existing : Option (OwnedNoteWitness F)) {rest : Outcome (ShardedNotesTree F)}
      {t' : ShardedNotesTree F}
      → (elim existing [
        | some owned ↦ ensure (owned.leaf_index == i) (duplicate_owned_leaf owned.leaf_index)
        | none ↦ ok tt
      ])
          >> rest
        ≡ ok t'
      → AtPlace i existing × (rest ≡ ok t')
  existing_ok i none h = (tt, h)
  existing_ok i (some owned) h =
      let (same_place, run) =
        ensure-ok (owned.leaf_index == i) (duplicate_owned_leaf owned.leaf_index) h in
      (==→eq owned.leaf_index i same_place, run)

  adopt_ok :
      (t t' : ShardedNotesTree F) (id : F) (i : ℕ) (siblings : List F)
      → adopt_frozen_witness t id i siblings ≡ ok t'
      → (root : F) × (t' ≡ track t id i (some siblings))
        × AtPlace i (find fr.eq t.owned_notes id)
        × (free_for (find_at t.owned_leaves i) id ≡ true)
        × (length siblings ≡ t.shard_height)
        × (get_elem? t.completed_roots (i / 2 ^ t.shard_height) ≡ some root)
        × (same (hash_path id (i % t.shard_size) siblings).0 root ≡ true)
  unfolding adopt_frozen_witness verify_frozen_path
  adopt_ok t t' id i siblings e =
      elim (Option-cases (get_elem? t.completed_roots (i / 2 ^ t.shard_height))) [
        | inr (root, there) ↦
            let (reached, step) =
              ensure-ok (ltb (i / 2 ^ t.shard_height) (length t.completed_roots))
                (shard_not_completed (i / 2 ^ t.shard_height)) e in
            let (at_place, rest) = existing_ok i (find fr.eq t.owned_notes id) step in
            (root, ground arith, at_place, ground arith, ground arith, there, ground arith)
        | inl absent ↦ absurd (ground arith)
      ]

  tabulate_at :
      (q : ℕ) (g : ℕ → F) (j : ℕ) {r : F}
      → get_elem? (tabulate q g) j ≡ some r
      → (j < q) × (r ≡ g j)
  tabulate_at q g j {r = r} e = elim (Bool-cases (ltb j q)) [
    | inl inside ↦ ground (
      arith,
      get_elem?-get_or (tabulate q g) j (g j),
      get_or-tabulate q g j (g j),
      length-tabulate q g,
    )
    | inr outside ↦ absurd (ground (arith, get_elem?_beyond (tabulate q g) j, length-tabulate q g))
  ]

  pub frozen_note :
      (d sh : ℕ) (leaves : List F) (t : ShardedNotesTree F) (id : F) (i : ℕ) (siblings : List F)
      (root : F)
      → (h : Holds d sh leaves t) → length siblings ≡ t.shard_height
      → get_elem? t.completed_roots (i / 2 ^ t.shard_height) ≡ some root
      → same (hash_path id (i % t.shard_size) siblings).0 root ≡ true
      → PathOk sh h.q leaves id i (some siblings)
  frozen_note d sh leaves t id i siblings root h size there top =
      let r = reads d sh leaves t h in
      let size' : length siblings ≡ sh = size ∙ r.height in
      let (completed, root-eq) =
        tabulate_at h.q (shard sh h.done) (i / 2 ^ sh) (rw (r.height, r.roots) at there) in
      let top' : (hash_path id (i % 2 ^ sh) siblings).0 ≡ shard sh leaves (i / 2 ^ sh) =
        eq_of_same (hash_path id (i % 2 ^ sh) siblings).0 root (rw r.size at top)
        ∙ root-eq
        ∙ sym (shard_done sh h.q (i / 2 ^ sh) h.done h.live h.count completed)
        ∙ ap (λ ls. shard sh ls (i / 2 ^ sh)) h.whole in
      let rest : (hash_path id (i % 2 ^ sh) siblings).1 ≡ 0 =
        ap (λ p. p.1) (hash_path_low id (i % 2 ^ sh) siblings)
        ∙ rw size' (div-eq_of_lt (mod-lt i (pow_pos sh))) in
      frozen siblings completed size' (ap₂ (λ a b. (a, b)) top' rest)

  frozen_parts :
      (sh q : ℕ) (leaves : List F) (id : F) (i : ℕ) (siblings : List F)
      → PathOk sh q leaves id i (some siblings)
      → (i / 2 ^ sh < q)
        × (length siblings ≡ sh)
        × (hash_path id (i % 2 ^ sh) siblings ≡ (shard sh leaves (i / 2 ^ sh), 0))
  frozen_parts sh q leaves id i siblings (frozen _ completed size to_root) =
      (completed, size, to_root)

  -- An `adopt_frozen_witness` that succeeds keeps the leaves that a tree stands for, and tracks the
  -- note at its place with the path that was given. It succeeds only if the shard of the place is
  -- completed by leaves that are there, no other note is tracked at the place, nor this note at
  -- another, and the path has the height of the shard and leads from the note to the shard's root.
  pub adopt_frozen_witness-Holds :
      (d sh : ℕ) (leaves : List F) (t t' : ShardedNotesTree F) (id : F) (i : ℕ) (siblings : List F)
      → Holds d sh leaves t
      → adopt_frozen_witness t id i siblings ≡ ok t'
      → Holds d sh leaves t'
        × (t' ≡ track t id i (some siblings))
        × ((i / 2 ^ sh + 1) * 2 ^ sh ≤ length leaves)
        × (free_for (find_at t.owned_leaves i) id ≡ true)
        × AtPlace i (find fr.eq t.owned_notes id)
        × (length siblings ≡ sh)
        × (hash_path id (i % 2 ^ sh) siblings ≡ (shard sh leaves (i / 2 ^ sh), 0))
  adopt_frozen_witness-Holds d sh leaves t t' id i siblings h e =
      let (root, new, at_place, free, size, there, top) = adopt_ok t t' id i siblings e in
      let path = frozen_note d sh leaves t id i siblings root h size there top in
      let (completed, size', to_root) = frozen_parts sh h.q leaves id i siblings path in
      let whole : length h.done ≤ length leaves =
        omega (arith, length-append h.done h.live, ap (λ ls. length ls) h.whole) in
      (
        subst (λ s. Holds d sh leaves s) (sym new)
            (track-Holds d sh leaves t id i (some siblings) h free path),
        new,
        omega (
          arith,
          h.count,
          mul-le-mul_right {m = i / 2 ^ sh + 1} {n = h.q} (2 ^ sh) (omega arith),
        ),
        free,
        at_place,
        size',
        to_root,
      )
