-- ===== src/Sharded/Witness.antt =====
-- `witness` of a sharded tree: the path within the shard and the cap path above it make a proof in
-- the whole tree.
use rs_core.Prelude.{
  ℕ, ◌+◌, ◌-◌, ◌*◌, ◌/◌, ◌%◌, ◌^◌, ◌<◌, ◌≡◌, refl, sym, ap, ◌∙◌, List, [], ◌∷◌, ◌++◌, Option, none,
  some, true, arith, length, length-append, get_or, get_elem?-get_or, eq→==,
}
use native.Mathlib.Nat.{div-add-mod, lt_of_mul-lt-mul_right}
use mathlib.Core.Path.{subst}
use rs_core.Outcome.{ok}
use rs_core.Assoc.{All-find, find}
use rs_core.Field.{Fr}
use rs_core.Merkle.{padded, merkle_root, merkle_path}
use rs_core.Proof.{InclusionProof, hash_path, verify_proof_at_depth}
use rs_core.Proof.Paths.{same_refl, length-merkle_path}
use rs_core.Imt.Canonical.{leaf-tree_of}
use rs_core.Imt.Root.{create_proof_inside}
use rs_core.Sharded.{ShardedNotesTree, OwnedNoteWitness}
use rs_core.Sharded.Canonical.{
  tabulate, length-tabulate, shard, empty_shard, cap_count, cap_shards, sharded_of,
}
use rs_core.Sharded.Owned.{PathOk, frozen, pending, Tracked, frozen_path, live_leaf}
use rs_core.Sharded.Notes.{witness, within_siblings}
use rs_core.Sharded.Holds.{Holds, root-sharded_of}
use rs_core.Sharded.Glue.{glued_verifies}

module _ {F : Type 0} ⦃fr : Fr F⦄ where
  -- The path within the shard that `witness` finds for a tracked note whose leaf is there.
  within_siblings_ok :
      (d sh q : ℕ) (done live : List F) (notes : List (F × OwnedNoteWitness F))
      (places : List (ℕ × F)) (dirty : List F) (id : F) (place : ℕ) (path : Option (List F))
      → length done ≡ q * 2 ^ sh
      → length live < 2 ^ sh
      → place < length (done ++ live)
      → PathOk sh q (done ++ live) id place path
      → (s : List F) × (within_siblings
            (sharded_of d sh q done live notes places dirty)
            id
            place
            path
          ≡ ok s)
        × (length s ≡ sh)
        × (hash_path id (place % 2 ^ sh) s ≡ (shard sh (done ++ live) (place / 2 ^ sh), 0))
  unfolding within_siblings sharded_of
  within_siblings_ok d sh q done live notes places dirty id place (some s) h k inside
        (frozen _ j l e) =
      (s, refl, l, e)
  within_siblings_ok d sh q done live notes places dirty id place none h k inside (pending j e) =
      let within = place % 2 ^ sh in
      let here : place / 2 ^ sh ≡ q =
        let below : place / 2 ^ sh < q + 1 =
          lt_of_mul-lt-mul_right (2 ^ sh)
            (omega (arith, div-add-mod place (2 ^ sh), length-append done live)) in
        omega arith in
      let there : within < length live = omega (
        arith,
        length-append done live,
        div-add-mod place (2 ^ sh),
        ap (λ (j : ℕ). j * 2 ^ sh) here,
      ) in
      let mine : get_or live within fr.zero ≡ id =
        sym (live_leaf sh q done live place h here) ∙ e inside in
      (
        merkle_path sh (padded live fr.zero) within,
        rw (
          here,
          length-tabulate q (shard sh done),
          eq→== q q refl,
          leaf-tree_of sh fr.zero live within,
          get_elem?-get_or live within fr.zero there,
          mine,
          same_refl id,
          create_proof_inside sh fr.zero live within there,
        ),
        length-merkle_path sh (padded live fr.zero) within,
        rw (e inside) at (frozen_path sh q done live place h here),
      )

  in_cap :
      (sh q : ℕ) (done live : List F) (place : ℕ)
      → length done ≡ q * 2 ^ sh
      → length live < 2 ^ sh
      → place < length (done ++ live)
      → place / 2 ^ sh < cap_count q live
  in_cap sh q done [] place h k inside =
      lt_of_mul-lt-mul_right (2 ^ sh)
        (omega (arith, div-add-mod place (2 ^ sh), length-append done []))
  in_cap sh q done (x ∷ live) place h k inside =
      lt_of_mul-lt-mul_right (2 ^ sh)
        (omega (arith, div-add-mod place (2 ^ sh), length-append done (x ∷ live)))

  abbrev glued : ℕ → ℕ → List F → F → ℕ → List F → InclusionProof F
  glued d sh leaves id place s = record {
    leaf = id;
    index = place;
    siblings = s ++ merkle_path (d - sh) (shard sh leaves) (place / 2 ^ sh);
    root = merkle_root d fr.zero leaves;
  }

  witness-sharded_of :
      (d sh q : ℕ) (done live : List F) (notes : List (F × OwnedNoteWitness F))
      (places : List (ℕ × F)) (dirty : List F) (id : F) {o : OwnedNoteWitness F} {s : List F}
      → sh < d
      → length done ≡ q * 2 ^ sh
      → length live < 2 ^ sh
      → o.leaf_index < length (done ++ live)
      → find fr.eq notes id ≡ some o
      → within_siblings
          (sharded_of d sh q done live notes places dirty)
          id
          o.leaf_index
          o.within_shard_siblings
        ≡ ok s
      → witness (sharded_of d sh q done live notes places dirty) id
        ≡ ok (glued d sh (done ++ live) id o.leaf_index s)
  unfolding witness sharded_of
  witness-sharded_of d sh q done live notes places dirty id {o = o} {s = s} cut h k inside found
        within =
      let cap = tabulate (cap_count q live) (shard sh (done ++ live)) in
      let j = o.leaf_index / 2 ^ sh in
      rw
        (
          found,
          within,
          create_proof_inside (d - sh) (empty_shard sh) cap j (
              omega (
                arith,
                length-tabulate (cap_count q live) (shard sh (done ++ live)),
                in_cap sh q done live o.leaf_index h k inside,
              )),
          root-sharded_of d sh q done live notes places dirty cut h (omega arith),
        )
        (ap
          (λ f. ok (record (glued d sh (done ++ live) id o.leaf_index s) {
            siblings = s ++ merkle_path (d - sh) f j;
          }))
          (cap_shards sh q done live h (omega arith)))

  -- For every tracked note whose leaf has been appended, `witness` succeeds, and its proof of the
  -- note at its place, under the Merkle root of all leaves, passes `verify_proof_at_depth`.
  pub witness-Holds :
      (d sh : ℕ) (leaves : List F) (t : ShardedNotesTree F) (id : F) (o : OwnedNoteWitness F)
      → Holds d sh leaves t
      → find fr.eq t.owned_notes id ≡ some o
      → o.leaf_index < length leaves
      → (p : InclusionProof F) × (witness t id ≡ ok p)
        × (p.leaf ≡ id)
        × (p.index ≡ o.leaf_index)
        × (p.root ≡ merkle_root d fr.zero leaves)
        × (verify_proof_at_depth p d ≡ true)
  witness-Holds d sh leaves t id o h found inside =
      let tracked =
        All-find fr.eq (Tracked sh h.q leaves t.owned_leaves) t.owned_notes id h.tracked found in
      let inside' : o.leaf_index < length (h.done ++ h.live) =
        omega (arith, ap (λ ls. length ls) h.whole) in
      let (s, within, size, path) =
        within_siblings_ok d sh h.q h.done h.live t.owned_notes t.owned_leaves t.dirty_owned_notes
          id o.leaf_index o.within_shard_siblings h.count h.part inside'
          (subst (λ ls. PathOk sh h.q ls id o.leaf_index o.within_shard_siblings) (sym h.whole)
            tracked.path) in
      (
        glued d sh leaves id o.leaf_index s,
        ap (λ u. witness u id) h.state
            ∙ witness-sharded_of d sh h.q h.done h.live t.owned_notes t.owned_leaves
                t.dirty_owned_notes id h.cut h.count h.part inside' found within
            ∙ ap (λ ls. ok (glued d sh ls id o.leaf_index s)) h.whole,
        refl,
        refl,
        refl,
        glued_verifies d sh leaves id o.leaf_index s h.constructible h.cut (omega (arith, h.room))
            size
            (subst
              (λ ls.
                hash_path id (o.leaf_index % 2 ^ sh) s ≡ (shard sh ls (o.leaf_index / 2 ^ sh), 0))
              h.whole path),
      )
