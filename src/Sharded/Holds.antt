-- ===== src/Sharded/Holds.antt =====
-- What a sharded tree promises: it stands for the list of all leaves appended to it, those of
-- completed shards included, and `append` keeps it so.
use rs_core.Prelude.{
  ℕ, suc, ◌-◌, ◌*◌, ◌/◌, ◌^◌, ◌≤◌, ◌<◌, ◌≡◌, refl, sym, ap, ◌∙◌, List, [], ◌∷◌, ◌++◌, Option, none,
  some, true, arith, length, length-append, ltb, ◌==◌, if◌then◌else◌, Bool-cases, inl, inr, lt→ltb,
  le→ltb, append_assoc, append-nil, get_or-append_left, get_or-append_last,
}
use native.Mathlib.Nat.{lt_of_mul-lt-mul_right}
use rs_core.Prelude.Halves.{pow_pos, pow_cut}
use rs_core.Outcome.{ok, err, tree_full, owned_leaf_mismatch}
use rs_core.Assoc.{All, find_at}
use rs_core.Field.{Fr}
use rs_core.Geometry.{tree_capacity_lem}
use rs_core.Merkle.{padded, subtree, merkle_root}
use rs_core.Merkle.Shards.{subtree_cut}
use rs_core.Proof.Paths.{eq_of_same}
use rs_core.Imt.Insert.{insert-tree_of}
use rs_core.Imt.Root.{root-tree_of}
use rs_core.Sharded.{
  ShardedNotesTree, OwnedNoteWitness, leaf_count, ensure_room, validate_incoming_owned_note, settle,
  append, root, free_for,
}
use rs_core.Sharded.Canonical.{
  tabulate, length-tabulate, shard, shard_done, empty_shard, cap_count, cap_shards, sharded_of,
}
use rs_core.Sharded.Append.{unsynced, settle-unsynced}
use rs_core.Sharded.Owned.{PathOk, frozen, pending, Tracked, tracked_notes, freeze-Tracked}

-- The live shard of a tree that is not full has its place in the cap.
cap_room : (d sh q n : ℕ) → sh < d → q * 2 ^ sh ≤ n → n < 2 ^ d → q < 2 ^ (d - sh)
cap_room d sh q n cut h room =
    lt_of_mul-lt-mul_right (2 ^ sh) (omega (arith, pow_cut d (d - sh) sh (omega arith)))

module _ {F : Type 0} ⦃fr : Fr F⦄ where
  -- `t` stands for `leaves`: the first `q` shards are completed, the rest is live, and every owned
  -- note is tracked.
  pub record Holds (d sh : ℕ) (leaves : List F) (t : ShardedNotesTree F) : Type 0 where
    pub constructible : d < 64
    pub cut : sh < d
    pub q : ℕ
    pub done : List F
    pub live : List F
    pub whole : done ++ live ≡ leaves
    pub count : length done ≡ q * 2 ^ sh
    pub part : length live < 2 ^ sh
    pub room : length leaves ≤ 2 ^ d
    pub state : t ≡ sharded_of d sh q done live t.owned_notes t.owned_leaves t.dirty_owned_notes
    pub tracked : All (Tracked sh q leaves t.owned_leaves) t.owned_notes

  pub leaf_count-sharded_of :
      (d sh q : ℕ) (done live : List F) (notes : List (F × OwnedNoteWitness F))
      (places : List (ℕ × F)) (dirty : List F)
      → length done ≡ q * 2 ^ sh
      → leaf_count (sharded_of d sh q done live notes places dirty) ≡ length (done ++ live)
  unfolding leaf_count sharded_of
  leaf_count-sharded_of d sh q done live notes places dirty h =
      rw (length-tabulate q (shard sh done)) (omega (arith, length-append done live))

  pub root-sharded_of :
      (d sh q : ℕ) (done live : List F) (notes : List (F × OwnedNoteWitness F))
      (places : List (ℕ × F)) (dirty : List F)
      → sh < d
      → length done ≡ q * 2 ^ sh
      → length live ≤ 2 ^ sh
      → root (sharded_of d sh q done live notes places dirty)
        ≡ ok (merkle_root d fr.zero (done ++ live))
  unfolding root sharded_of merkle_root
  root-sharded_of d sh q done live notes places dirty c h k =
      root-tree_of (d - sh) (empty_shard sh) (tabulate (cap_count q live) (shard sh (done ++ live)))
      ∙ ap (λ f. ok (subtree (d - sh) f 0)) (cap_shards sh q done live h k)
      ∙ ap ok (sym (subtree_cut d sh (d - sh) (padded (done ++ live) fr.zero) (omega arith)))

  pub append-sharded_of :
      (d sh q : ℕ) (done live : List F) (notes : List (F × OwnedNoteWitness F))
      (places : List (ℕ × F)) (dirty : List F) (leaf : F)
      → d < 64
      → sh < d
      → length done ≡ q * 2 ^ sh
      → length live < 2 ^ sh
      → append (sharded_of d sh q done live notes places dirty) leaf ≡ (
          if ltb (length (done ++ live)) (2 ^ d)
          then (if free_for (find_at places (length (done ++ live))) leaf
              then settle (unsynced d sh q done live (live ++ (leaf ∷ [])) notes places dirty)
              else err (owned_leaf_mismatch (length (done ++ live))))
          else err (tree_full d))
  unfolding append ensure_room validate_incoming_owned_note sharded_of unsynced
  append-sharded_of d sh q done live notes places dirty leaf c cut h k =
      rw (leaf_count-sharded_of d sh q done live notes places dirty h, tree_capacity_lem d c)
        (elim (Bool-cases (ltb (length (done ++ live)) (2 ^ d))) [
          | inl room ↦
              rw (room, le→ltb (2 ^ d - length (done ++ live)) 1 (ground arith))
                (elim (Bool-cases (free_for (find_at places (length (done ++ live))) leaf)) [
                  | inl free ↦
                      rw (free, insert-tree_of sh fr.zero live leaf (omega arith))
                        (rw (lt→ltb (length live) (2 ^ sh) k))
                  | inr taken ↦ rw taken
                ])
          | inr full ↦ rw (full, lt→ltb (2 ^ d - length (done ++ live)) 1 (ground arith))
        ])

  -- A note keeps its path while its own leaf is the only one that may take its place.
  path-append :
      (sh q : ℕ) (done live : List F) (leaf id : F) (place : ℕ) (path : Option (List F))
      (places : List (ℕ × F))
      → length done ≡ q * 2 ^ sh
      → find_at places place ≡ some id
      → free_for (find_at places (length (done ++ live))) leaf ≡ true
      → PathOk sh q (done ++ live) id place path
      → PathOk sh q (done ++ (live ++ (leaf ∷ []))) id place path
  path-append sh q done live leaf id place (some s) places h at_place free (frozen _ k l e) =
      frozen s k l (
        rw
          (
            shard_done sh q (place / 2 ^ sh) done (live ++ (leaf ∷ [])) h k,
            ← shard_done sh q (place / 2 ^ sh) done live h k,
          )
          e)
  path-append sh q done live leaf id place none places h at_place free (pending k e) =
      pending k (λ inside. elim (Bool-cases (ltb place (length (done ++ live)))) [
        | inl before ↦
            rw
              (
                ← append_assoc done live (leaf ∷ []),
                get_or-append_left (done ++ live) (leaf ∷ []) place fr.zero (ground arith),
              )
              (e (ground arith))
        | inr after ↦
            let last : place ≡ length (done ++ live) = ground (
              arith,
              length-append done live,
              length-append done (live ++ (leaf ∷ [])),
              length-append live (leaf ∷ []),
            ) in
            rw
              (
                ← append_assoc done live (leaf ∷ []),
                last,
                get_or-append_last (done ++ live) leaf [] fr.zero,
              )
              (sym (eq_of_same id leaf (rw (← last, at_place) at free)))
      ])

  pub Tracked-append :
      (sh q : ℕ) (done live : List F) (leaf : F) (places : List (ℕ × F))
      (notes : List (F × OwnedNoteWitness F))
      → length done ≡ q * 2 ^ sh
      → free_for (find_at places (length (done ++ live))) leaf ≡ true
      → All (Tracked sh q (done ++ live) places) notes
      → All (Tracked sh q (done ++ (live ++ (leaf ∷ []))) places) notes
  Tracked-append sh q done live leaf places [] h free all = tt
  Tracked-append sh q done live leaf places ((id, owned) ∷ notes) h free (t, all) = (
    record {
      same_id = t.same_id;
      indexed = t.indexed;
      path =
          path-append sh q done live leaf id owned.leaf_index owned.within_shard_siblings places h
            t.indexed free t.path;
    },
    Tracked-append sh q done live leaf places notes h free all,
  )

  settle-cons :
      (d sh q : ℕ) (done before : List F) (leaf : F) (more : List F)
      (notes : List (F × OwnedNoteWitness F)) (places : List (ℕ × F)) (dirty : List F)
      → d < 64
      → sh < d
      → length done ≡ q * 2 ^ sh
      → length (leaf ∷ more) ≤ 2 ^ sh
      → length (done ++ (leaf ∷ more)) ≤ 2 ^ d
      → All (Tracked sh q (done ++ (leaf ∷ more)) places) notes
      → (t : ShardedNotesTree F) × (settle
            (unsynced d sh q done before (leaf ∷ more) notes places dirty)
          ≡ ok t)
        × (t.owned_leaves ≡ places)
        × (tracked_notes t.owned_notes ≡ tracked_notes notes)
        × Holds d sh (done ++ (leaf ∷ more)) t
  settle-cons d sh q done before leaf more notes places dirty c cut h k room all =
      let live = leaf ∷ more in
      let settled =
        settle-unsynced d sh q done before leaf more notes places dirty c (omega arith)
          (cap_room d sh q (length done) cut (omega arith) (omega (arith, length-append done live)))
          h in
      elim (Bool-cases (length live == 2 ^ sh)) [
        | inl full ↦
            let (notes', dirty', e, same, all') =
              freeze-Tracked d sh q done live notes places dirty notes dirty h (ground arith) all in
            (
              sharded_of d sh (suc q) (done ++ live) [] notes' places dirty',
              rw (settled, full, e),
              unfold sharded_of in refl,
              unfold sharded_of in same,
              record {
                constructible = c;
                cut = cut;
                q = suc q;
                done = done ++ live;
                live = [];
                whole = append-nil (done ++ live);
                count = ground (arith, length-append done live);
                part = pow_pos sh;
                room = room;
                state = unfold sharded_of in refl;
                tracked = unfold sharded_of in all';
              },
            )
        | inr part ↦ (
          sharded_of d sh q done live notes places dirty,
          rw (settled, part),
          unfold sharded_of in refl,
          unfold sharded_of in refl,
          record {
            constructible = c;
            cut = cut;
            q = q;
            done = done;
            live = live;
            whole = refl;
            count = h;
            part = ground arith;
            room = room;
            state = unfold sharded_of in refl;
            tracked = unfold sharded_of in all;
          },
        )
      ]

  -- The end of a round keeps what the tree stands for.
  pub settle-Holds :
      (d sh q : ℕ) (done before live : List F) (notes : List (F × OwnedNoteWitness F))
      (places : List (ℕ × F)) (dirty : List F)
      → d < 64
      → sh < d
      → length done ≡ q * 2 ^ sh
      → 0 < length live
      → length live ≤ 2 ^ sh
      → length (done ++ live) ≤ 2 ^ d
      → All (Tracked sh q (done ++ live) places) notes
      → (t : ShardedNotesTree F) × (settle (unsynced d sh q done before live notes places dirty)
          ≡ ok t)
        × (t.owned_leaves ≡ places)
        × (tracked_notes t.owned_notes ≡ tracked_notes notes)
        × Holds d sh (done ++ live) t
  settle-Holds d sh q done before [] notes places dirty c cut h some_live k room all =
      absurd (omega arith)
  settle-Holds d sh q done before (leaf ∷ more) notes places dirty c cut h some_live k room all =
      settle-cons d sh q done before leaf more notes places dirty c cut h k room all
