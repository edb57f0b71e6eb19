-- ===== src/Sharded/Restore/Start.antt =====
-- The part of `from_snapshot` before the owned notes: the live tree and the cap are rebuilt.
use native.Mathlib.Nat.{le_of_mul-le-mul_right}
use rs_core.Prelude.Halves.{pow_cut, pow_pos}
use rs_core.Prelude.{
  ℕ, ◌+◌, ◌-◌, ◌*◌, ◌^◌, ◌≤◌, ◌<◌, ◌≡◌, refl, sym, ap, ◌∙◌, List, [], ◌∷◌, ◌++◌, false, not, ◌&&◌,
  arith, length, length-append, leb, ◌==◌, le→leb, le→ltb, neq→==, ◌≢◌,
}
use rs_core.Outcome.{Outcome, ◌>>=◌}
use rs_core.Field.{Fr}
use rs_core.Geometry.{tree_capacity, tree_capacity_lem}
use rs_core.Imt.{is_empty}
use rs_core.Imt.Build.{from_leaves-tree_of}
use rs_core.Imt.Canonical.{tree_of}
use rs_core.Snapshot.Codec.{ShardedTreeSnapshot}
use rs_core.Sharded.{ShardedNotesTree, OwnedNoteWitness}
use rs_core.Sharded.Canonical.{tabulate, length-tabulate, shard, empty_shard, sharded_of}
use rs_core.Sharded.Holds.{Holds}
use rs_core.Sharded.Laws.{new-sharded_of}
use rs_core.Sharded.Rewind.{rebuild_cap_anew, rebuild_cap-sharded_of}
use rs_core.Sharded.Restore.{restore_notes, from_snapshot}

lt→leb : (a b : ℕ) → b < a → leb a b ≡ false
lt→leb a b h = ground arith

-- A live shard with leaves has its place behind the completed ones.
not_full :
    {F : Type 0} (d sh q : ℕ) (live : List F) (total : ℕ)
    → total ≡ q
    → q * 2 ^ sh + length live ≤ 2 ^ (d - sh) * 2 ^ sh
    → ((total == 2 ^ (d - sh)) && not (is_empty live)) ≡ false
unfolding is_empty
not_full d sh q [] total e h = ground arith
not_full d sh q (x ∷ live) total e h =
    let other : total ≢ 2 ^ (d - sh) =
      λ same. omega (arith, ap (λ (j : ℕ). j * 2 ^ sh) (sym e ∙ same)) in
    rw (neq→== total (2 ^ (d - sh)) other)

module _ {F : Type 0} ⦃fr : Fr F⦄ where
  -- The snapshot of a tree over `done ++ live` with these notes.
  unfoldable pub stored :
      ℕ → ℕ → ℕ → List F → List F → List (OwnedNoteWitness F) → ShardedTreeSnapshot F
  stored d sh q done live notes = record {
    depth = d;
    shard_height = sh;
    completed_roots = tabulate q (shard sh done);
    live_leaves = live;
    owned_notes = notes;
  }

  pub from_snapshot-stored :
      (d sh q : ℕ) (done live : List F) (notes : List (OwnedNoteWitness F))
      → d < 64
      → 0 < sh
      → sh < d
      → length done ≡ q * 2 ^ sh
      → length live < 2 ^ sh
      → length (done ++ live) ≤ 2 ^ d
      → from_snapshot (stored d sh q done live notes)
        ≡ restore_notes (2 ^ d) (sharded_of d sh q done live [] [] []) notes
  unfolding from_snapshot stored sharded_of
  from_snapshot-stored d sh q done live notes c p cut h k room =
      let total : length (tabulate q (shard sh done)) ≡ q = length-tabulate q (shard sh done) in
      let fits : q ≤ 2 ^ (d - sh) =
        le_of_mul-le-mul_right {m = q} {n = 2 ^ (d - sh)} {k = 2 ^ sh}
          (omega (arith, length-append done live, pow_cut d (d - sh) sh (omega arith)))
          (pow_pos sh) in
      rw
        (
          new-sharded_of d sh c (ground arith),
          tree_capacity_lem (d - sh) (omega arith),
          le→ltb (2 ^ (d - sh)) (length (tabulate q (shard sh done))) (omega arith),
          not_full d sh q live (length (tabulate q (shard sh done))) total
              (omega (arith, length-append done live, pow_cut d (d - sh) sh (omega arith))),
          lt→leb (2 ^ sh) (length live) k,
          from_leaves-tree_of sh live (omega arith),
          le→leb (length live) (2 ^ sh) (omega arith),
        )
        (ap
            (λ (m : Outcome (ShardedNotesTree F)).
              m >>= λ t. tree_capacity t.depth >>= λ capacity. restore_notes capacity t notes)
            (rebuild_cap_anew
                (record (sharded_of d sh q done [] [] [] []) {
                  live = tree_of sh fr.zero live;
                  live_leaves = live;
                })
                (tree_of (d - sh) (empty_shard sh) (tabulate 0 (shard sh [])))
              ∙ rebuild_cap-sharded_of d sh q done [] live [] [] [] c cut h k room)
          ∙ rw (tree_capacity_lem d c))

  -- Before the owned notes the tree stands for the snapshot's leaves.
  pub base-Holds :
      (d sh q : ℕ) (done live : List F)
      → d < 64
      → sh < d
      → length done ≡ q * 2 ^ sh
      → length live < 2 ^ sh
      → length (done ++ live) ≤ 2 ^ d
      → Holds d sh (done ++ live) (sharded_of d sh q done live [] [] [])
  base-Holds d sh q done live c cut h k room = record {
    constructible = c;
    cut = cut;
    q = q;
    done = done;
    live = live;
    whole = refl;
    count = h;
    part = k;
    room = room;
    state = unfold sharded_of in refl;
    tracked = unfold sharded_of in tt;
  }
