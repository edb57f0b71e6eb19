-- ===== src/Sharded/Append.antt =====
-- `append` and `append_many` of a sharded tree: the cap follows the live shard, and a full shard
-- is rolled over.
use rs_core.Prelude.{
  ℕ, suc, ◌+◌, ◌-◌, ◌*◌, ◌^◌, ◌<◌, ◌≡◌, refl, sym, ap, ◌∙◌, List, [], ◌∷◌, ◌++◌, arith, length,
  ◌==◌, if◌then◌else◌, set, lt→ltb, append-nil, eq→==, neq→==,
}
use rs_core.Outcome.{ok, ◌>>=◌}
use rs_core.Field.{Fr}
use rs_core.Merkle.{merkle_root}
use rs_core.Imt
use rs_core.Imt.Canonical.{tree_of, leaf_count-tree_of}
use rs_core.Imt.Insert.{insert-tree_of}
use rs_core.Imt.Update.{update-tree_of}
use rs_core.Imt.Root.{root-tree_of}
use rs_core.Imt.Build.{new-tree_of}
use rs_core.Sharded.{ShardedNotesTree, OwnedNoteWitness, sync_live_root, freeze, roll_over, settle}
use rs_core.Sharded.Canonical.{
  tabulate, length-tabulate, tabulate-agree, set-last, shard, empty_shard, shard_live, shard_done,
  sharded_of,
}

module _ {F : Type 0} ⦃fr : Fr F⦄ where
  -- The state between the growth of the live shard and the update of the cap.
  unfoldable pub unsynced :
      ℕ
      → ℕ
      → ℕ
      → List F
      → List F
      → List F
      → List (F × OwnedNoteWitness F)
      → List (ℕ × F)
      → List F
      → ShardedNotesTree F
  unsynced d sh q done before live notes places dirty =
      record (sharded_of d sh q done before notes places dirty) {
        live = tree_of sh fr.zero live;
        live_leaves = live;
      }

  pub completed-shards :
      (sh q : ℕ) (done live : List F)
      → length done ≡ q * 2 ^ sh
      → tabulate q (shard sh (done ++ live)) ≡ tabulate q (shard sh done)
  completed-shards sh q done live h =
      tabulate-agree q (shard sh (done ++ live)) (shard sh done)
        (λ j k. shard_done sh q j done live h k)

  pub completed_of_live :
      (sh q : ℕ) (done live : List F)
      → length done ≡ q * 2 ^ sh
      → tabulate q (shard sh done) ++ (merkle_root sh fr.zero live ∷ [])
        ≡ tabulate (suc q) (shard sh (done ++ live))
  unfolding tabulate
  completed_of_live sh q done live h =
      rw (completed-shards sh q done live h, shard_live sh q done live h)

  -- The cap's leaves after the live shard's root has been put behind those of the completed ones.
  cap_of_live :
      (sh q : ℕ) (done before live : List F)
      → length done ≡ q * 2 ^ sh
      → tabulate q (shard sh (done ++ before)) ++ (merkle_root sh fr.zero live ∷ [])
        ≡ tabulate (suc q) (shard sh (done ++ live))
  cap_of_live sh q done before live h =
      rw (completed-shards sh q done before h) (completed_of_live sh q done live h)

  cap_of_live_again :
      (sh q : ℕ) (done before live : List F)
      → length done ≡ q * 2 ^ sh
      → set (tabulate (suc q) (shard sh (done ++ before))) q (merkle_root sh fr.zero live)
        ≡ tabulate (suc q) (shard sh (done ++ live))
  unfolding tabulate
  cap_of_live_again sh q done before live h =
      let g = shard sh (done ++ before) in
      ap (λ n. set (tabulate q g ++ (g q ∷ [])) n (merkle_root sh fr.zero live))
        (sym (length-tabulate q g))
      ∙ set-last (tabulate q g) (g q) (merkle_root sh fr.zero live)
      ∙ (unfold tabulate in cap_of_live sh q done before live h)

  sync_live_root-unsynced :
      (d sh q : ℕ) (done before : List F) (leaf : F) (more : List F)
      (notes : List (F × OwnedNoteWitness F)) (places : List (ℕ × F)) (dirty : List F)
      → d - sh < 64
      → q < 2 ^ (d - sh)
      → length done ≡ q * 2 ^ sh
      → sync_live_root (unsynced d sh q done before (leaf ∷ more) notes places dirty)
        ≡ ok (sharded_of d sh q done (leaf ∷ more) notes places dirty)
  unfolding sync_live_root unsynced sharded_of Imt.is_empty
  sync_live_root-unsynced d sh q done [] leaf more notes places dirty c room h =
      let cap = tabulate q (shard sh (done ++ [])) in
      let size : length cap ≡ q = length-tabulate q (shard sh (done ++ [])) in
      rw
        (
          root-tree_of sh fr.zero (leaf ∷ more),
          leaf_count-tree_of (d - sh) (empty_shard sh) cap,
          size,
          length-tabulate q (shard sh done),
          eq→== q q refl,
          insert-tree_of (d - sh) (empty_shard sh) cap (merkle_root sh fr.zero (leaf ∷ more)) c,
        )
        (rw (size, lt→ltb q (2 ^ (d - sh)) room, cap_of_live sh q done [] (leaf ∷ more) h))
  sync_live_root-unsynced d sh q done (b ∷ before) leaf more notes places dirty c room h =
      let cap = tabulate (suc q) (shard sh (done ++ (b ∷ before))) in
      let size : length cap ≡ suc q = length-tabulate (suc q) (shard sh (done ++ (b ∷ before))) in
      rw
        (
          root-tree_of sh fr.zero (leaf ∷ more),
          leaf_count-tree_of (d - sh) (empty_shard sh) cap,
          size,
          length-tabulate q (shard sh done),
          neq→== (suc q) q (λ e. omega arith),
          eq→== (suc q) (q + 1) (omega arith),
          update-tree_of (d - sh) (empty_shard sh) cap q (merkle_root sh fr.zero (leaf ∷ more))
              (omega arith),
        )
        (rw (
          size,
          lt→ltb q (suc q) (omega arith),
          cap_of_live_again sh q done (b ∷ before) (leaf ∷ more) h,
        ))

  roll_over-sharded_of :
      (d sh q : ℕ) (done : List F) (leaf : F) (more : List F)
      (notes : List (F × OwnedNoteWitness F)) (places : List (ℕ × F)) (dirty : List F)
      → sh < 64
      → length done ≡ q * 2 ^ sh
      → roll_over (sharded_of d sh q done (leaf ∷ more) notes places dirty) ≡ (
          freeze (sharded_of d sh q done (leaf ∷ more) notes places dirty) notes dirty >>= λ r.
          ok (sharded_of d sh (suc q) (done ++ (leaf ∷ more)) [] r.0 places r.1))
  unfolding roll_over sharded_of
  roll_over-sharded_of d sh q done leaf more notes places dirty c h = rw (
    root-tree_of sh fr.zero (leaf ∷ more),
    new-tree_of sh c,
    completed_of_live sh q done (leaf ∷ more) h,
    append-nil (done ++ (leaf ∷ more)),
  )

  -- The end of a round: the cap follows the live shard, and a full shard is rolled over.
  pub settle-unsynced :
      (d sh q : ℕ) (done before : List F) (leaf : F) (more : List F)
      (notes : List (F × OwnedNoteWitness F)) (places : List (ℕ × F)) (dirty : List F)
      → d < 64
      → sh < 64
      → q < 2 ^ (d - sh)
      → length done ≡ q * 2 ^ sh
      → settle (unsynced d sh q done before (leaf ∷ more) notes places dirty) ≡ (
          if length (leaf ∷ more) == 2 ^ sh
          then (freeze (sharded_of d sh q done (leaf ∷ more) notes places dirty) notes dirty
              >>= λ r. ok (sharded_of d sh (suc q) (done ++ (leaf ∷ more)) [] r.0 places r.1))
          else ok (sharded_of d sh q done (leaf ∷ more) notes places dirty))
  unfolding settle
  settle-unsynced d sh q done before leaf more notes places dirty c c' room h =
      rw
        (sync_live_root-unsynced d sh q done before leaf more notes places dirty (omega arith) room
          h)
        (rw (roll_over-sharded_of d sh q done leaf more notes places dirty c' h)
          (unfold sharded_of in refl))
