-- ===== src/Indexed/Laws.antt =====
-- Each operation of `IndexedMerkleTree` on the tree of a list of distinct leaves.
use rs_core.Prelude.{
  get_elem?, get_elem?-get_or, some, get_or, ℕ, ◌+◌, ◌-◌, ◌^◌, ◌≤◌, ◌<◌, ◌≡◌, refl, ◌∙◌, ap, sym,
  fun_ext, List, [], ◌∷◌, ◌++◌, Bool, true, false, ◌||◌, ◌⊎◌, arith, length, length-append, take,
  drop, take-append-drop, ltb, leb, if◌then◌else◌, Bool-cases, inl, inr, append_assoc, append-nil,
  le→ltb, lt→ltb,
}
use rs_core.Outcome.{ok, err, tree_full, duplicate_leaf, leaf_not_found, leaf_index_out_of_range}
use rs_core.Field.{Fr, same}
use rs_core.Geometry.{tree_capacity_lem}
use rs_core.Proof.{InclusionProof, verify_proof_at_depth}
use rs_core.Proof.Paths.{proof_of, verify-proof_of}
use rs_core.Merkle.{padded, merkle_root, merkle_frontier}
use rs_core.Imt.Canonical.{tree_of, leaf_count-tree_of, leaves-tree_of}
use rs_core.Imt.Build.{from_leaves-tree_of, new-tree_of}
use rs_core.Imt.Insert.{insert-tree_of}
use rs_core.Imt.InsertMany.{insert_many-tree_of}
use rs_core.Imt.Update.{truncate-tree_of}
use rs_core.Imt.Root.{create_proof_inside, root-tree_of, next_leaf_frontier-tree_of}
use rs_core.Indexed.{
  IndexedMerkleTree, from_leaves, index_loop, insert, insert_many, check_loop, extend, create_proof,
  truncate, root, next_leaf_frontier, new,
}
use rs_core.Indexed.Map.{
  put, contains, index_of, fresh, contains_key-index_from, index_from-append, index_from_sound,
  index_from_complete, contains-append, index_from_absent, remove_all, remove_all-index_of,
  no_index_lem, fresh-append,
}

module _ {F : Type 0} ⦃fr : Fr F⦄ where
  abbrev pub indexed_of : ℕ → List F → IndexedMerkleTree F
  indexed_of d leaves = record { tree = tree_of d fr.zero leaves; indices = index_of leaves }

  pub new-indexed_of : (d : ℕ) → d < 64 → new {F = F} d ≡ ok (indexed_of d [])
  unfolding new
  new-indexed_of d c = rw (tree_capacity_lem d c, new-tree_of d c, no_index_lem)

  put-index_of :
      (leaves : List F) (leaf : F)
      → contains leaves leaf ≡ false
      → put (index_of leaves) leaf (length leaves) ≡ index_of (leaves ++ (leaf ∷ []))
  put-index_of leaves leaf h = fun_ext λ x.
      sym (
        index_from-append 0 leaves leaf x h
        ∙ ap (λ n. put (index_of leaves) leaf n x) (omega arith))

  -- At a depth below 64, `insert` into the indexed tree of a list of leaves refuses a leaf that
  -- is there, then a full tree; otherwise it gives the indexed tree with the leaf at the end, and
  -- its place.
  pub insert-indexed_of :
      (d : ℕ) (leaves : List F) (leaf : F)
      → d < 64
      → insert (indexed_of d leaves) leaf ≡ (
          if contains leaves leaf
          then err duplicate_leaf
          else if ltb (length leaves) (2 ^ d)
          then ok (indexed_of d (leaves ++ (leaf ∷ [])), length leaves)
          else err (tree_full d))
  unfolding insert tree_of
  insert-indexed_of d leaves leaf c = elim (Bool-cases (contains leaves leaf)) [
    | inl there ↦ rw (contains_key-index_from 0 leaves leaf, there)
    | inr absent ↦
        rw
          (
            contains_key-index_from 0 leaves leaf,
            absent,
            leaf_count-tree_of d fr.zero leaves,
            tree_capacity_lem d c,
          )
          (elim (Bool-cases (ltb (length leaves) (2 ^ d))) [
            | inl room ↦
                rw (room, insert-tree_of d fr.zero leaves leaf c)
                  (rw (room, put-index_of leaves leaf absent))
            | inr full ↦ rw full
          ])
  ]

  check_loop-fresh :
      (leaves batch more : List F) (incoming : F → Bool)
      → ((x : F) → incoming x ≡ contains batch x)
      → check_loop (index_of leaves) incoming more
        ≡ (if fresh (leaves ++ batch) more then ok tt else err duplicate_leaf)
  unfolding check_loop fresh
  check_loop-fresh leaves batch [] incoming h = refl
  check_loop-fresh leaves batch (x ∷ more) incoming h = ground (
    arith,
    contains_key-index_from 0 leaves x,
    h x,
    contains-append leaves batch x,
    append_assoc leaves batch (x ∷ []),
    check_loop-fresh leaves (batch ++ (x ∷ [])) more (λ y. same y x || incoming y)
        (λ y. ground (arith, h y, contains-append batch (x ∷ []) y)),
  )

  extend-index_of :
      (leaves more : List F)
      → fresh leaves more ≡ true
      → extend (index_of leaves) (length leaves) more ≡ index_of (leaves ++ more)
  unfolding extend fresh
  extend-index_of leaves [] h = rw append-nil
  extend-index_of leaves (x ∷ more) h = ground (
    arith,
    put-index_of leaves x,
    extend-index_of (leaves ++ (x ∷ [])) more,
    length-append leaves (x ∷ []),
    append_assoc leaves (x ∷ []) more,
  )

  index_loop-fresh :
      (leaves more : List F)
      → index_loop (index_of leaves) (length leaves) more
        ≡ (if fresh leaves more then ok (index_of (leaves ++ more)) else err duplicate_leaf)
  unfolding index_loop fresh
  index_loop-fresh leaves [] = rw append-nil
  index_loop-fresh leaves (x ∷ more) = ground (
    arith,
    contains_key-index_from 0 leaves x,
    put-index_of leaves x,
    index_loop-fresh (leaves ++ (x ∷ [])) more,
    length-append leaves (x ∷ []),
    append_assoc leaves (x ∷ []) more,
  )

  -- At a depth below 64 and on the indexed tree of leaves that fit, `insert_many` appends all
  -- leaves or none: it refuses a batch without room, then one with a leaf that is there or stands
  -- twice.
  pub insert_many-indexed_of :
      (d : ℕ) (leaves more : List F)
      → d < 64
      → length leaves ≤ 2 ^ d
      → insert_many (indexed_of d leaves) more ≡ (
          if leb (length leaves + length more) (2 ^ d)
          then (if fresh leaves more
              then ok (indexed_of d (leaves ++ more))
              else err duplicate_leaf)
          else err (tree_full d))
  unfolding insert_many tree_of
  insert_many-indexed_of d leaves more c h =
      rw (tree_capacity_lem d c, leaf_count-tree_of d fr.zero leaves)
        (elim (Bool-cases (leb (length leaves + length more) (2 ^ d))) [
          | inl room ↦
              rw
                (
                  room,
                  le→ltb (2 ^ d - length leaves) (length more) (ground arith),
                  check_loop-fresh leaves [] more (λ x. false) (λ x. refl),
                  append-nil,
                )
                (elim (Bool-cases (fresh leaves more)) [
                  | inl new ↦
                      rw (new, insert_many-tree_of d fr.zero leaves more c h)
                        (rw room (rw (extend-index_of leaves more new)))
                  | inr twice ↦ rw twice
                ])
          | inr full ↦ rw (full, lt→ltb (2 ^ d - length leaves) (length more) (ground arith))
        ])

  -- At a depth below 64, `from_leaves` refuses leaves that do not fit, then leaves that repeat,
  -- and otherwise gives the indexed tree of the leaves.
  pub from_leaves-indexed_of :
      (d : ℕ) (leaves : List F)
      → d < 64
      → from_leaves d leaves ≡ (
          if leb (length leaves) (2 ^ d)
          then (if fresh [] leaves then ok (indexed_of d leaves) else err duplicate_leaf)
          else err (tree_full d))
  unfolding from_leaves
  from_leaves-indexed_of d leaves c =
      rw (tree_capacity_lem d c, no_index_lem)
        (elim (Bool-cases (leb (length leaves) (2 ^ d))) [
          | inl room ↦
              rw (room, le→ltb (2 ^ d) (length leaves) (ground arith), index_loop-fresh [] leaves)
                (elim (Bool-cases (fresh [] leaves)) [
                  | inl new ↦ rw (new, from_leaves-tree_of d leaves c) (rw room)
                  | inr twice ↦ rw twice
                ])
          | inr full ↦ rw (full, lt→ltb (2 ^ d) (length leaves) (ground arith))
        ])

  -- At a depth below 64 and on the indexed tree of distinct leaves that fit, `truncate` to no
  -- more leaves than there are drops the leaves behind the first `n` from the tree and from the
  -- index, and reports any other count as out of range.
  pub truncate-indexed_of :
      (d : ℕ) (leaves : List F) (n : ℕ)
      → d < 64
      → length leaves ≤ 2 ^ d
      → fresh [] leaves ≡ true
      → truncate (indexed_of d leaves) n ≡ (
          if leb n (length leaves)
          then ok (indexed_of d (take n leaves))
          else err (leaf_index_out_of_range n (length leaves)))
  unfolding truncate
  truncate-indexed_of d leaves n c h new =
      let apart : fresh (take n leaves) (drop n leaves) ≡ true =
        ground
          (arith, fresh-append [] (take n leaves) (drop n leaves), take-append-drop n leaves) in
      let index : remove_all (index_of leaves) (drop n leaves) ≡ index_of (take n leaves) =
        rw (take-append-drop n leaves) at
          (remove_all-index_of (take n leaves) (drop n leaves) apart) in
      rw
        (
          leaf_count-tree_of d fr.zero leaves,
          leaves-tree_of d fr.zero leaves,
          truncate-tree_of d fr.zero leaves n c h,
        )
        (elim (Bool-cases (leb n (length leaves))) [
          | inl inside ↦ rw (inside, index) (rw (le→ltb (length leaves) n (ground arith)))
          | inr outside ↦ rw outside (rw (lt→ltb (length leaves) n (ground arith)))
        ])

  -- At a depth below 64 and on the indexed tree of leaves that fit, `create_proof` of a leaf that
  -- is not there reports `LeafNotFound`; of one that is there it returns a proof with that leaf, an
  -- index where the list holds it and the Merkle root, which passes `verify_proof_at_depth`.
  pub create_proof-indexed_of :
      (d : ℕ) (leaves : List F) (leaf : F)
      → d < 64
      → length leaves ≤ 2 ^ d
      → ((contains leaves leaf ≡ false)
          × (create_proof (indexed_of d leaves) leaf ≡ err leaf_not_found))
        ⊎ ((contains leaves leaf ≡ true)
            × ((p : InclusionProof F) × (create_proof (indexed_of d leaves) leaf ≡ ok p)
                × (p.leaf ≡ leaf)
                × (get_elem? leaves p.index ≡ some leaf)
                × (p.root ≡ merkle_root d fr.zero leaves)
                × (verify_proof_at_depth p d ≡ true)))
  unfolding create_proof
  create_proof-indexed_of d leaves leaf c h = elim (Bool-cases (contains leaves leaf)) [
    | inl there ↦
        let (i, e) = index_from_complete 0 leaves leaf there in
        let (k, place, inside, read) = index_from_sound 0 leaves leaf fr.zero i e in
        let i-eq-k : i ≡ k = omega (arith, place) in
        let inside' : i < length leaves = omega arith in
        let read' : get_or leaves i fr.zero ≡ leaf = rw i-eq-k read in
        inr (
          there,
          (
            proof_of d (padded leaves fr.zero) i,
            rw e (create_proof_inside d fr.zero leaves i inside'),
            read',
            get_elem?-get_or leaves i fr.zero inside' ∙ ap some read',
            unfold merkle_root in refl,
            verify-proof_of d (padded leaves fr.zero) i c (omega arith),
          ),
        )
    | inr absent ↦ inl (absent, rw (index_from_absent 0 leaves leaf absent))
  ]

  pub root-indexed_of :
      (d : ℕ) (leaves : List F) → root (indexed_of d leaves) ≡ ok (merkle_root d fr.zero leaves)
  unfolding root
  root-indexed_of d leaves = root-tree_of d fr.zero leaves

  pub next_leaf_frontier-indexed_of :
      (d : ℕ) (leaves : List F)
      → d < 64
      → next_leaf_frontier (indexed_of d leaves) ≡ (
          if ltb (length leaves) (2 ^ d)
          then ok (merkle_frontier d (padded leaves fr.zero) (length leaves))
          else err (tree_full d))
  unfolding next_leaf_frontier
  next_leaf_frontier-indexed_of d leaves c = next_leaf_frontier-tree_of d fr.zero leaves c
