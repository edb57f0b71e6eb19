-- ===== src/Frontier/Siblings.antt =====
-- `NotesFrontier::append_with_siblings`: the inclusion proof of the leaf that was just appended.
use rs_core.Prelude.{
  ℕ, zero, suc, ◌+◌, ◌*◌, ◌/◌, ◌^◌, ◌<◌, ◌≡◌, ◌≢◌, refl, sym, ap₂, ◌∙◌, List, [], ◌∷◌, ◌++◌, true,
  arith, length, length-append, get_or_beyond, get_or-append_left, get_or-append_last, ltb,
  Bool-cases, inl, inr, ltb→lt,
}
use rs_core.Outcome.{ok, ◌>>=◌}
use rs_core.Field.{Fr}
use rs_core.Merkle.{padded, pairs, subtree, merkle_path, merkle_root, other}
use rs_core.Proof.{verify_proof_at_depth}
use rs_core.Proof.Paths.{verify-proof_of}
use rs_core.Frontier.{NotesFrontier, FrontierAppend, append, append_with_siblings, root}
use rs_core.Frontier.Canonical.{frontier_of}
use rs_core.Frontier.Append.{append-frontier_of, with_leaf}
use rs_core.Frontier.Root.{siblings_loop-slots_of, root-frontier_of}

other_ne : (i : ℕ) → other i ≢ i
unfolding other
other_ne i = omega arith

module _ {F : Type 0} ⦃fr : Fr F⦄ where
  -- The path of a place does not depend on the node at that place.
  merkle_path-Agree :
      (d : ℕ) (f g : ℕ → F) (n : ℕ)
      → ((i : ℕ) → i ≢ n → f i ≡ g i)
      → merkle_path d f n ≡ merkle_path d g n
  unfolding merkle_path
  merkle_path-Agree zero f g n h = refl
  merkle_path-Agree (suc d) f g n h =
      ap₂ (λ s path. s ∷ path) (h (other n) (other_ne n))
        (merkle_path-Agree d (pairs f) (pairs g) (n / 2) (λ i ne.
          ap₂ fr.poseidon (h (2 * i) (λ e. ne (omega arith)))
            (h (2 * i + 1) (λ e. ne (omega arith)))))

  beside_leaf :
      (leaves : List F) (leaf : F) (i : ℕ)
      → i ≢ length leaves
      → padded leaves fr.zero i ≡ with_leaf leaves leaf i
  beside_leaf leaves leaf i ne = elim (Bool-cases (ltb i (length leaves))) [
    | inl before ↦ sym (get_or-append_left leaves (leaf ∷ []) i fr.zero (ltb→lt _ _ before))
    | inr behind ↦
        get_or_beyond leaves i fr.zero (ground arith)
        ∙ sym (
            get_or_beyond (leaves ++ (leaf ∷ [])) i fr.zero
              (ground (arith, length-append leaves (leaf ∷ []))))
  ]

  -- `append_with_siblings` appends as `append` does, and returns the new leaf's Merkle path in the
  -- tree with the leaf.
  pub append_with_siblings-frontier_of :
      (d sh : ℕ) (leaves : List F) (leaf : F)
      → d < 64
      → 0 < sh
      → append_with_siblings (frontier_of d sh leaves) leaf ≡ (
          append (frontier_of d sh leaves) leaf >>= λ r.
          ok (r.0, r.1, merkle_path d (with_leaf leaves leaf) (length leaves)))
  unfolding append_with_siblings frontier_of
  append_with_siblings-frontier_of d sh leaves leaf c p =
      rw
        (siblings_loop-slots_of d (d + 1) d 0 (padded leaves fr.zero) fr.zero (length leaves)
          (omega arith) (omega arith) (λ i k. get_or_beyond leaves i fr.zero (omega arith)))
        (rw (
          merkle_path-Agree d (padded leaves fr.zero) (with_leaf leaves leaf) (length leaves)
            (beside_leaf leaves leaf)))

  append_with_siblings_ok :
      (d sh : ℕ) (leaves : List F) (leaf : F) {t : NotesFrontier F} {made : FrontierAppend F}
      {siblings : List F}
      → d < 64
      → 0 < sh
      → append_with_siblings (frontier_of d sh leaves) leaf ≡ ok (t, made, siblings)
      → (length leaves < 2 ^ d)
        × (t ≡ frontier_of d sh (leaves ++ (leaf ∷ [])))
        × (made.leaf_index ≡ length leaves)
        × (siblings ≡ merkle_path d (with_leaf leaves leaf) (length leaves))
  append_with_siblings_ok d sh leaves leaf c p h = ground (
    arith,
    append_with_siblings-frontier_of d sh leaves leaf c p,
    append-frontier_of d sh leaves leaf c p,
  )

  -- At a depth below 64 and a positive shard height, the siblings that a successful
  -- `append_with_siblings` returns make a proof of the leaf at its index, under the root that the
  -- new frontier reports, that passes `verify_proof_at_depth`.
  pub append_with_siblings-verifies :
      (d sh : ℕ) (leaves : List F) (leaf : F) {t : NotesFrontier F} {made : FrontierAppend F}
      {siblings : List F} {r : F}
      → d < 64
      → 0 < sh
      → append_with_siblings (frontier_of d sh leaves) leaf ≡ ok (t, made, siblings)
      → root t ≡ ok r
      → verify_proof_at_depth
          (record { leaf = leaf; index = made.leaf_index; siblings = siblings; root = r })
          d
        ≡ true
  append_with_siblings-verifies d sh leaves leaf {t = t} {made = made} {siblings = siblings} {r = r}
        c p h e =
      let (room, state, place, path) = append_with_siblings_ok d sh leaves leaf c p h in
      let f = with_leaf leaves leaf in
      let top : r ≡ subtree d f 0 =
        unfold merkle_root in
        ground (
          arith,
          root-frontier_of d sh (leaves ++ (leaf ∷ [])) c
              (omega (arith, length-append leaves (leaf ∷ []))),
        ) in
      rw (place, path, top)
        (rw (get_or-append_last leaves leaf [] fr.zero) at
          (verify-proof_of d f (length leaves) c room))
