-- ===== src/Sharded/Rewind.antt =====
-- `rewind_live_to` and `rebuild_cap` of a sharded tree: the live shard is cut, what it held is
-- forgotten, and the cap is built anew.
use rs_core.Prelude.{
  ℕ, zero, suc, ◌+◌, ◌-◌, ◌*◌, ◌/◌, ◌^◌, ◌≤◌, ◌<◌, ◌≡◌, refl, sym, ap, ◌∙◌, List, [], ◌∷◌, ◌++◌,
  arith, length, take, not, length-take, length-append, some, none, Option, ltb, if◌then◌else◌,
  Option-cases, inl, inr, le→leb, le→ltb, append-nil,
}
use mathlib.Core.Path.{subst}
use native.Mathlib.Nat.{
  div-add-mod, le_of_mul-le-mul_right, mul-le-mul_right, lt_of_mul-lt-mul_right,
}
use rs_core.Prelude.Halves.{pow_pos, pow_cut}
use rs_core.Outcome.{
  Outcome, ok, ◌>>=◌, ◌>>◌, ensure, index, rewind_before_completed, leaf_index_out_of_range,
}
use rs_core.Assoc.{All, values_from, find}
use rs_core.Field.{Fr}
use rs_core.Geometry.{zero_roots}
use rs_core.Merkle.Shards.{get_or-append_right}
use rs_core.Imt
use rs_core.Imt.{is_empty}
use rs_core.Imt.Canonical.{tree_of}
use rs_core.Imt.Build.{from_leaves-tree_of, from_leaves_with_zero-tree_of}
use rs_core.Imt.Root.{root-tree_of}
use rs_core.Sharded.{ShardedNotesTree, OwnedNoteWitness, leaf_count}
use rs_core.Sharded.Canonical.{
  tabulate, length-tabulate, shard, shard_done, empty_shard, sharded_of,
}
use rs_core.Sharded.Append.{completed_of_live}
use rs_core.Sharded.Owned.{PathOk, frozen, pending, Tracked}
use rs_core.Sharded.Notes.{unmark_owned}
use rs_core.Sharded.Holds.{Holds}
use rs_core.Sharded.Reads.{reads}
use rs_core.Sharded.Marks.{unmark_owned-Holds}
use rs_core.Sharded.Stateless.{index_zero, get_or-take}

take_cut :
    {A : Type 0} (n m : ℕ) (xs ys : List A)
    → n ≡ length xs + m
    → take n (xs ++ ys) ≡ xs ++ take m ys
take_cut n m [] ys e = let k : n ≡ m = omega arith in rw k
take_cut zero m (x ∷ xs) ys e = absurd (omega arith)
take_cut (suc n) m (x ∷ xs) ys e = ap (λ t. x ∷ t) (take_cut n m xs ys (omega arith))

module _ {F : Type 0} ⦃fr : Fr F⦄ where
  pub rebuild_cap : ShardedNotesTree F → Outcome (ShardedNotesTree F)
  rebuild_cap t = do
    cap_zero ← index (zero_roots t.depth) t.shard_height
    roots ←
        (if is_empty t.live_leaves
          then ok t.completed_roots
          else (do root ← Imt.root t.live; ok (t.completed_roots ++ (root ∷ []))))
    cap ← Imt.from_leaves_with_zero t.cap_depth cap_zero roots
    ok (record t { cap = cap })

  pub unmark_all : ShardedNotesTree F → List F → ShardedNotesTree F
  unmark_all t [] = t
  unmark_all t (id ∷ ids) = unmark_all (unmark_owned t id).0 ids

  -- The end of a rewind: the live leaves are cut, the live tree and the cap built anew.
  pub restart : ShardedNotesTree F → ℕ → Outcome (ShardedNotesTree F)
  unfolding rebuild_cap
  restart t m = do
    let live_leaves = take m t.live_leaves
    live ← Imt.from_leaves t.shard_height live_leaves
    rebuild_cap (record t { live = live; live_leaves = live_leaves })

  pub rewind_live_to : ShardedNotesTree F → ℕ → Outcome (ShardedNotesTree F × List F)
  unfolding leaf_count unmark_all restart
  rewind_live_to t n = do
    let completed = length t.completed_roots * t.shard_size
    ensure (not (ltb n completed)) (rewind_before_completed completed n)
    ensure (not (ltb (leaf_count t) n)) (leaf_index_out_of_range n (leaf_count t))
    let removed = values_from t.owned_leaves n
    t' ← restart (unmark_all t removed) (n - completed)
    ok (t', removed)

  unmark_all-Holds :
      (d sh : ℕ) (leaves : List F) (t : ShardedNotesTree F) (ids : List F)
      → Holds d sh leaves t
      → Holds d sh leaves (unmark_all t ids)
  unfolding unmark_all
  unmark_all-Holds d sh leaves t [] h = h
  unmark_all-Holds d sh leaves t (id ∷ ids) h =
      unmark_all-Holds d sh leaves (unmark_owned t id).0 ids (unmark_owned-Holds d sh leaves t id h)

  unmark_owned-roots :
      (t : ShardedNotesTree F) (id : F) → (unmark_owned t id).0.completed_roots ≡ t.completed_roots
  unfolding unmark_owned
  unmark_owned-roots t id = elim (Option-cases (find fr.eq t.owned_notes id)) [
    | inl absent ↦ rw (absent, unmark_owned)
    | inr (o, there) ↦ rw (there, unmark_owned)
  ]

  unmark_all-roots :
      (t : ShardedNotesTree F) (ids : List F)
      → (unmark_all t ids).completed_roots ≡ t.completed_roots
  unfolding unmark_all
  unmark_all-roots t [] = refl
  unmark_all-roots t (id ∷ ids) =
      unmark_all-roots (unmark_owned t id).0 ids ∙ unmark_owned-roots t id

  -- The path of a note survives the loss of later leaves of the live shard.
  path-cut :
      (sh q n : ℕ) (done live : List F) (id : F) (place : ℕ) (path : Option (List F))
      → length done ≡ q * 2 ^ sh
      → PathOk sh q (done ++ live) id place path
      → PathOk sh q (done ++ take n live) id place path
  path-cut sh q n done live id place (some s) h (frozen _ k l e) = frozen s k l (
      rw
        (
          shard_done sh q (place / 2 ^ sh) done (take n live) h k,
          ← shard_done sh q (place / 2 ^ sh) done live h k,
        )
        e)
  path-cut sh q n done live id place none h (pending k e) = pending k (λ inside.
      let low : length done ≤ place = omega (
        arith,
        div-add-mod place (2 ^ sh),
        mul-le-mul_right {m = q} {n = place / 2 ^ sh} (2 ^ sh) k,
      ) in
      let short = length-take n live in
      get_or-append_right done (take n live) (place - length done) place fr.zero (omega arith)
      ∙ get_or-take n live (place - length done) fr.zero
          (omega (arith, short, length-append done (take n live)))
      ∙ sym (get_or-append_right done live (place - length done) place fr.zero (omega arith))
      ∙ e (omega (arith, short, length-append done (take n live), length-append done live)))

  -- The old cap is not read.
  pub rebuild_cap_anew :
      (t : ShardedNotesTree F) (cap : Imt.Imt F)
      → rebuild_cap (record t { cap = cap }) ≡ rebuild_cap t
  unfolding rebuild_cap
  rebuild_cap_anew t cap = refl

  pub rebuild_cap-sharded_of :
      (d sh q : ℕ) (done before live : List F) (notes : List (F × OwnedNoteWitness F))
      (places : List (ℕ × F)) (dirty : List F)
      → d < 64
      → sh < d
      → length done ≡ q * 2 ^ sh
      → length live < 2 ^ sh
      → length (done ++ live) ≤ 2 ^ d
      → rebuild_cap (record (sharded_of d sh q done before notes places dirty) {
        live = tree_of sh fr.zero live;
        live_leaves = live;
      })
        ≡ ok (sharded_of d sh q done live notes places dirty)
  unfolding rebuild_cap sharded_of is_empty
  rebuild_cap-sharded_of d sh q done before [] notes places dirty c cut h k room =
      rw
        (
          index_zero d sh (omega arith),
          from_leaves_with_zero-tree_of (d - sh) (empty_shard sh) (tabulate q (shard sh done))
              (omega arith),
        )
        (rw (
          le→leb (length (tabulate q (shard sh done))) (2 ^ (d - sh)) (
              omega (
                arith,
                length-tabulate q (shard sh done),
                le_of_mul-le-mul_right {m = q} {n = 2 ^ (d - sh)} {k = 2 ^ sh}
                    (omega (arith, length-append done [], pow_cut d (d - sh) sh (omega arith)))
                    (pow_pos sh),
              )),
          append-nil done,
        ))
  rebuild_cap-sharded_of d sh q done before (x ∷ live) notes places dirty c cut h k room =
      rw
        (
          index_zero d sh (omega arith),
          root-tree_of sh fr.zero (x ∷ live),
          completed_of_live sh q done (x ∷ live) h,
          from_leaves_with_zero-tree_of (d - sh) (empty_shard sh)
              (tabulate (suc q) (shard sh (done ++ (x ∷ live)))) (omega arith),
        )
        (rw (
          le→leb (length (tabulate (suc q) (shard sh (done ++ (x ∷ live))))) (2 ^ (d - sh)) (
            omega (
              arith,
              length-tabulate (suc q) (shard sh (done ++ (x ∷ live))),
              lt_of_mul-lt-mul_right (2 ^ sh) {m = q} {n = 2 ^ (d - sh)} (
                  omega
                    (arith, length-append done (x ∷ live), pow_cut d (d - sh) sh (omega arith))),
            ))))

  Tracked-cut :
      (sh q n : ℕ) (done live : List F) (places : List (ℕ × F))
      (notes : List (F × OwnedNoteWitness F))
      → length done ≡ q * 2 ^ sh
      → All (Tracked sh q (done ++ live) places) notes
      → All (Tracked sh q (done ++ take n live) places) notes
  Tracked-cut sh q n done live places [] h all = tt
  Tracked-cut sh q n done live places ((id, o) ∷ notes) h (t, all) = (
    record {
      same_id = t.same_id;
      indexed = t.indexed;
      path = path-cut sh q n done live id o.leaf_index o.within_shard_siblings h t.path;
    },
    Tracked-cut sh q n done live places notes h all,
  )

  restart-sharded_of :
      (d sh q m : ℕ) (done live : List F) (notes : List (F × OwnedNoteWitness F))
      (places : List (ℕ × F)) (dirty : List F)
      → d < 64
      → sh < d
      → length done ≡ q * 2 ^ sh
      → length live < 2 ^ sh
      → length (done ++ live) ≤ 2 ^ d
      → restart (sharded_of d sh q done live notes places dirty) m
        ≡ ok (sharded_of d sh q done (take m live) notes places dirty)
  unfolding restart sharded_of
  restart-sharded_of d sh q m done live notes places dirty c cut h k room =
      rw
        (
          from_leaves-tree_of sh (take m live) (omega arith),
          le→leb (length (take m live)) (2 ^ sh) (omega (arith, length-take m live)),
        )
        (unfold sharded_of in
          rebuild_cap-sharded_of d sh q done live (take m live) notes places dirty c cut h
            (omega (arith, length-take m live))
            (omega (
              arith,
              length-take m live,
              length-append done live,
              length-append done (take m live),
            )))

  restart-Holds :
      (d sh : ℕ) (leaves : List F) (t : ShardedNotesTree F) (n m : ℕ)
      → (h : Holds d sh leaves t) → n ≡ h.q * 2 ^ sh + m
      → (t' : ShardedNotesTree F) × (restart t m ≡ ok t') × Holds d sh (take n leaves) t'
  restart-Holds d sh leaves t n m h e =
      let live = take m h.live in
      let cut_leaves : h.done ++ live ≡ take n leaves =
        sym (take_cut n m h.done h.live (omega (arith, h.count))) ∙ ap (λ ls. take n ls) h.whole in
      (
        sharded_of d sh h.q h.done live t.owned_notes t.owned_leaves t.dirty_owned_notes,
        ap (λ s. restart s m) h.state
            ∙ restart-sharded_of d sh h.q m h.done h.live t.owned_notes t.owned_leaves
                t.dirty_owned_notes h.constructible h.cut h.count h.part
                (omega (arith, ap (λ ls. length ls) h.whole, h.room)),
        record {
          constructible = h.constructible;
          cut = h.cut;
          q = h.q;
          done = h.done;
          live = live;
          whole = cut_leaves;
          count = h.count;
          part = omega (arith, h.part, length-take m h.live);
          room = omega (arith, length-take n leaves, h.room);
          state = unfold sharded_of in refl;
          tracked =
              unfold sharded_of in
              subst (λ ls. All (Tracked sh h.q ls t.owned_leaves) t.owned_notes) cut_leaves
                (Tracked-cut sh h.q m h.done h.live t.owned_leaves t.owned_notes h.count (
                  subst (λ ls. All (Tracked sh h.q ls t.owned_leaves) t.owned_notes) (sym h.whole)
                    h.tracked));
        },
      )

  rewind_run :
      (t t' : ShardedNotesTree F) (n : ℕ)
      → length t.completed_roots * t.shard_size ≤ n
      → n ≤ length t.completed_roots * t.shard_size + length t.live_leaves
      → restart
          (unmark_all t (values_from t.owned_leaves n))
          (n - length t.completed_roots * t.shard_size)
        ≡ ok t'
      → rewind_live_to t n ≡ ok (t', values_from t.owned_leaves n)
  unfolding rewind_live_to
  rewind_run t t' n low high e = rw (
    le→ltb n (length t.completed_roots * t.shard_size) low,
    le→ltb (length t.completed_roots * t.shard_size + length t.live_leaves) n high,
    e,
  )

  -- A rewind to a leaf count of the live shard, from a state that stands for `leaves`, succeeds: it
  -- returns the notes tracked at the places behind, and the new state stands for the first leaves.
  pub rewind_live_to-Holds :
      (d sh : ℕ) (leaves : List F) (t : ShardedNotesTree F) (n : ℕ)
      → Holds d sh leaves t
      → length t.completed_roots * t.shard_size ≤ n
      → n ≤ length leaves
      → (t' : ShardedNotesTree F) × (rewind_live_to t n ≡ ok (t', values_from t.owned_leaves n))
        × Holds d sh (take n leaves) t'
  rewind_live_to-Holds d sh leaves t n h low high =
      let r = reads d sh leaves t h in
      let u = unmark_all t (values_from t.owned_leaves n) in
      let held = unmark_all-Holds d sh leaves t (values_from t.owned_leaves n) h in
      let kept = unmark_all-roots t (values_from t.owned_leaves n) in
      let same_q : held.q ≡ length t.completed_roots =
        sym (length-tabulate held.q (shard sh held.done))
        ∙ ap (λ ls. length ls) (sym (reads d sh leaves u held).roots ∙ kept) in
      let total : length t.completed_roots * t.shard_size + length t.live_leaves ≡ length leaves =
        unfold leaf_count in r.leaf_total in
      let done_count : held.q * 2 ^ sh ≡ length t.completed_roots * t.shard_size =
        ap (λ (j : ℕ). j * 2 ^ sh) same_q
        ∙ ap (λ (z : ℕ). length t.completed_roots * z) (sym r.size) in
      let (t', e, held') =
        restart-Holds d sh leaves u n (n - length t.completed_roots * t.shard_size) held
          (omega (arith, done_count, low)) in
      (t', rewind_run t t' n low (omega (arith, total, high)) e, held')
