-- ===== src/Imt/Client.antt =====
-- What a client of `Imt` sees over any sequence of calls: a bounded list of leaves, and the Merkle
-- root and paths of that list.
use rs_core.Prelude.{
  get_elem?, get_elem?-get_or, some, sym, ℕ, ◌+◌, ◌^◌, ◌≤◌, ◌<◌, ◌≡◌, refl, ap, ◌∙◌, true, List, [],
  ◌∷◌, ◌++◌, arith, length, set, take, ltb, leb, if◌then◌else◌, length-append, length-set,
  length-take, inl, inr,
}
use rs_core.Outcome.{
  Outcome, ok, err, panic, ◌>>=◌, >>=-ok, Outcome-cases, tree_full, leaf_index_out_of_range,
}
use rs_core.Field.{Fr}
use rs_core.Proof.{InclusionProof, verify_proof_at_depth}
use rs_core.Proof.Paths.{verify-proof_of}
use rs_core.Merkle.{padded, merkle_root}
use rs_core.Imt
use rs_core.Imt.{Imt, new_with_zero, root, create_proof}
use rs_core.Imt.Canonical.{tree_of}
use rs_core.Imt.Build.{new_with_zero-tree_of}
use rs_core.Imt.Insert.{insert-tree_of}
use rs_core.Imt.InsertMany.{insert_many-tree_of}
use rs_core.Imt.Update.{update-tree_of, truncate-tree_of}
use rs_core.Imt.Root.{root-tree_of, create_proof_ok}

-- The calls that change a tree.
pub data Call (F : Type 0) : Type 0 where
  insert : F → Call F
  insert_many : List F → Call F
  update : ℕ → F → Call F
  truncate : ℕ → Call F

module _ {F : Type 0} ⦃fr : Fr F⦄ where
  abbrev pub call : Call F → Imt F → Outcome (Imt F)
  call (insert leaf) t = Imt.insert t leaf
  call (insert_many leaves) t = Imt.insert_many t leaves
  call (update i leaf) t = Imt.update t i leaf
  call (truncate n) t = Imt.truncate t n

  pub run : List (Call F) → Imt F → Outcome (Imt F)
  run [] t = ok t
  run (c ∷ calls) t = call c t >>= run calls

-- The same calls on a list of at most `2 ^ d` leaves.
module _ {F : Type 0} (d : ℕ) where
  abbrev pub list_call : Call F → List F → Outcome (List F)
  list_call (insert leaf) leaves =
      if ltb (length leaves) (2 ^ d) then ok (leaves ++ (leaf ∷ [])) else panic
  list_call (insert_many more) leaves =
      if leb (length leaves + length more) (2 ^ d) then ok (leaves ++ more) else err (tree_full d)
  list_call (update i leaf) leaves =
      if ltb i (length leaves)
      then ok (set leaves i leaf)
      else err (leaf_index_out_of_range i (length leaves))
  list_call (truncate n) leaves =
      if leb n (length leaves)
      then ok (take n leaves)
      else err (leaf_index_out_of_range n (length leaves))

  unfoldable pub replay : List (Call F) → List F → Outcome (List F)
  replay [] leaves = ok leaves
  replay (c ∷ calls) leaves = list_call c leaves >>= replay calls

  list_call-room :
      (c : Call F) (leaves : List F) {leaves' : List F}
      → list_call c leaves ≡ ok leaves'
      → length leaves ≤ 2 ^ d
      → length leaves' ≤ 2 ^ d
  list_call-room (insert leaf) leaves e h = ground (arith, length-append leaves (leaf ∷ []))
  list_call-room (insert_many more) leaves e h = ground (arith, length-append leaves more)
  list_call-room (update i leaf) leaves e h = ground (arith, length-set leaves i leaf)
  list_call-room (truncate n) leaves e h = ground (arith, length-take n leaves)

  replay-room :
      (calls : List (Call F)) (leaves : List F) {leaves' : List F}
      → replay calls leaves ≡ ok leaves'
      → length leaves ≤ 2 ^ d
      → length leaves' ≤ 2 ^ d
  unfolding replay
  replay-room [] leaves e h = ground arith
  replay-room (c ∷ calls) leaves e h =
      let (leaves', e', rest) = >>=-ok (replay calls) (list_call c leaves) e in
      replay-room calls leaves' rest (list_call-room c leaves e' h)

module _ {F : Type 0} ⦃fr : Fr F⦄ (d : ℕ) (z : F) (constructible : d < 64) where
  call_refines :
      (c : Call F) (leaves : List F)
      → length leaves ≤ 2 ^ d
      → call c (tree_of d z leaves) ≡ (list_call d c leaves >>= λ leaves'. ok (tree_of d z leaves'))
  call_refines (insert leaf) leaves h = insert-tree_of d z leaves leaf constructible ∙ ground arith
  call_refines (insert_many more) leaves h =
      insert_many-tree_of d z leaves more constructible h ∙ ground arith
  call_refines (update i leaf) leaves h = update-tree_of d z leaves i leaf h ∙ ground arith
  call_refines (truncate n) leaves h = truncate-tree_of d z leaves n constructible h ∙ ground arith

  run-tree_of :
      (calls : List (Call F)) (leaves : List F)
      → length leaves ≤ 2 ^ d
      → run calls (tree_of d z leaves)
        ≡ (replay d calls leaves >>= λ leaves'. ok (tree_of d z leaves'))
  unfolding run replay
  run-tree_of [] leaves h = refl
  run-tree_of (c ∷ calls) leaves h =
      rw (call_refines c leaves h) (elim (Outcome-cases (list_call d c leaves)) [
        | inl (leaves', e) ↦ rw e (run-tree_of calls leaves' (list_call-room d c leaves e h))
        | inr (inl (_, e)) ↦ rw e
        | inr (inr e) ↦ rw e
      ])

  -- At a depth below 64, any sequence of `insert`, `insert_many`, `update` and `truncate` on a
  -- new tree fails with the error or panic that the same calls on a list of at most `2 ^ d`
  -- leaves give, or ends in the tree of the leaves that the list then holds.
  pub run-new_refines :
      (calls : List (Call F))
      → (new_with_zero d z >>= run calls)
        ≡ (replay d calls [] >>= λ leaves. ok (tree_of d z leaves))
  run-new_refines calls =
      rw (new_with_zero-tree_of d z constructible) (run-tree_of calls [] (omega arith))

  -- At a depth below 64, after any calls on a new tree that succeed on the list of leaves, `root`
  -- is the Merkle root of the leaves that the list holds.
  pub root-run :
      (calls : List (Call F)) {leaves : List F}
      → replay d calls [] ≡ ok leaves
      → (new_with_zero d z >>= run calls >>= root) ≡ ok (merkle_root d z leaves)
  root-run calls {leaves = leaves} e = rw (run-new_refines calls, e) (root-tree_of d z leaves)

  -- At a depth below 64, a proof that `create_proof` makes after calls that succeed on the list
  -- of leaves has the index that was asked for and the leaf that the list holds there, carries the
  -- Merkle root of the leaves and passes `verify_proof_at_depth`.
  pub create_proof-verifies :
      (calls : List (Call F)) (i : ℕ) {leaves : List F} {p : InclusionProof F}
      → replay d calls [] ≡ ok leaves
      → (new_with_zero d z >>= run calls >>= λ t. create_proof t i) ≡ ok p
      → (p.index ≡ i)
        × (get_elem? leaves i ≡ some p.leaf)
        × (p.root ≡ merkle_root d z leaves)
        × (verify_proof_at_depth p d ≡ true)
  create_proof-verifies calls i {leaves = leaves} {p = p} e h =
      let (inside, made) = create_proof_ok d z leaves i (rw (run-new_refines calls, e) at h) in
      (
        ap (λ q. q.index) made,
        get_elem?-get_or leaves i z inside ∙ ap (λ q. some q.leaf) (sym made),
        unfold merkle_root in ap (λ q. q.root) made,
        rw made (
            verify-proof_of d (padded leaves z) i constructible
              (omega (arith, replay-room d calls [] e))),
      )
