-- ===== src/Pending/Checks.antt =====
-- The checks of a batch before the tree is read: they pass exactly the batches that the circuit can
-- take, and name a fault of any other.
use rs_core.Prelude.{
  ℕ, ◌≤◌, ◌<◌, ◌≡◌, refl, ◌⊎◌, inl, inr, Bool, true, false, ◌&&◌, ◌||◌, List, [], ◌∷◌, ◌++◌, arith,
  ltb, leb, ◌==◌, length, Bool-cases,
}
use rs_core.Result.{ok, err}
use rs_core.Field.{Fr, same}
use rs_core.Indexed.Map.{contains, fresh, contains-append}
use rs_core.Pending.{
  PendingCommitmentError, invalid_batch_size, no_notes, batch_too_large, zero_note_id,
  duplicate_note_id, failed, check_batch_size, max_pending_batch_size, all_new, check_note_ids,
}

module _ {F : Type 0} ⦃fr : Fr F⦄ where
  -- A batch that the circuit can take.
  pub record IsBatch (batch_size : ℕ) (ids : List F) : Type 0 where
    pub positive : 1 ≤ batch_size
    pub bounded : batch_size ≤ max_pending_batch_size
    pub some_notes : 0 < length ids
    pub fits : length ids ≤ batch_size
    pub no_padding : contains ids fr.zero ≡ false
    pub distinct : fresh [] ids ≡ true

  -- The fault of a batch that an error names.
  pub Faulty : ℕ → List F → PendingCommitmentError → Type 0
  Faulty n ids (invalid_batch_size m) = (m ≡ n) × ((n ≡ 0) ⊎ (max_pending_batch_size < n))
  Faulty n ids no_notes = ids ≡ []
  Faulty n ids (batch_too_large count m) = (m ≡ n) × (count ≡ length ids) × (n < count)
  Faulty n ids zero_note_id = contains ids fr.zero ≡ true
  Faulty n ids duplicate_note_id = fresh [] ids ≡ false
  Faulty n ids _ = ⊥

  all_new-fresh :
      (ids batch : List F) (seen : F → Bool)
      → ((x : F) → seen x ≡ contains batch x)
      → all_new seen ids ≡ fresh batch ids
  unfolding all_new fresh
  all_new-fresh [] batch seen h = refl
  all_new-fresh (id ∷ ids) batch seen h = ground (
    arith,
    h id,
    all_new-fresh ids (batch ++ (id ∷ [])) (λ x. same x id || seen x)
        (λ x. ground (arith, h x, contains-append batch (id ∷ []) x)),
  )

  -- The checks pass exactly the batches, and name a fault of any other.
  pub check_note_ids-cases :
      (n : ℕ) (ids : List F)
      → ((check_note_ids n ids ≡ ok tt) × IsBatch n ids)
        ⊎ ((e : PendingCommitmentError) × (check_note_ids n ids ≡ err (failed e)) × Faulty n ids e)
  unfolding check_note_ids check_batch_size Faulty
  check_note_ids-cases n ids = elim (Bool-cases (leb 1 n && leb n max_pending_batch_size)) [
    | inr wrong ↦ inr (invalid_batch_size n, rw wrong, (refl, ground arith))
    | inl right ↦ elim (Bool-cases (length ids == 0)) [
      | inl none_there ↦ inr (no_notes, rw (right, none_there), ground arith)
      | inr some_there ↦ elim (Bool-cases (ltb n (length ids))) [
        | inl large ↦ inr (
          batch_too_large (length ids) n,
          rw (right, some_there, large),
          (refl, refl, ground arith),
        )
        | inr small ↦ elim (Bool-cases (contains ids fr.zero)) [
          | inl zeros ↦ inr (zero_note_id, rw (right, some_there, small, zeros), zeros)
          | inr plain ↦
              let same_test = all_new-fresh ids [] (λ x. false) (λ x. refl) in
              elim (Bool-cases (fresh [] ids)) [
                | inr twice ↦ inr (
                  duplicate_note_id,
                  rw (right, some_there, small, plain, same_test, twice),
                  twice,
                )
                | inl once ↦ inl (
                  rw (right, some_there, small, plain, same_test, once),
                  record {
                    positive = ground arith;
                    bounded = ground arith;
                    some_notes = ground arith;
                    fits = ground arith;
                    no_padding = plain;
                    distinct = once;
                  },
                )
              ]
        ]
      ]
    ]
  ]
