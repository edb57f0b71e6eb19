-- ===== src/Pending/Packed.antt =====
-- `build_bound_pending_commitment_packed` takes exactly the packed batches.
use mathlib.Core.Path.{subst}
use rs_core.Prelude.{
  ℕ, ◌*◌, ◌≤◌, ◌≡◌, refl, ◌∙◌, ◌↔◌, inl, inr, ◌&&◌, List, arith, ltb, leb, length, le→leb,
  Bool-cases, le→ltb,
}
use rs_core.Result.{ok, Result-cases}
use rs_core.Assoc.{All}
use rs_core.Bytes.{IsByte}
use rs_core.Field.{Fr}
use rs_core.Wire.{FrInt}
use rs_core.Wire.Packed.{
  fr_from_be_32_packed, fr_to_be_32_packed, fr_from_be_32_packed_iff, length-fr_to_be_32_packed,
}
use rs_core.Calldata.{FrHash}
use rs_core.Appendable.{AppendableNotesTree}
use rs_core.Pending.Checks.{IsBatch, check_note_ids-cases}
use rs_core.Pending.{
  BoundPendingCommitment, check_batch_size, max_pending_batch_size, append_checked,
  build_bound_pending_commitment, unpack_note_ids, build_bound_pending_commitment_packed,
}

module _ {F : Type 0} ⦃fr : Fr F⦄ ⦃int : FrInt F⦄ where
  unpack_note_ids-ok :
      (n : ℕ) (bytes : List ℕ) (ids : List F)
      → All IsByte bytes
      → unpack_note_ids n bytes ≡ ok ids
      → fr_to_be_32_packed ids ≡ bytes
  unfolding unpack_note_ids check_batch_size
  unpack_note_ids-ok n bytes ids all h =
      elim (Bool-cases (leb 1 n && leb n max_pending_batch_size)) [
        | inr wrong ↦ let k = rw wrong at h in cc
        | inl right ↦
            let k = rw right at h in
            elim (Bool-cases (ltb (n * 32) (length bytes))) [
              | inl long ↦ let k' = rw long at k in cc
              | inr short ↦
                  let k' = rw short at k in
                  elim (Result-cases {A = List F} (fr_from_be_32_packed bytes)) [
                    | inr (e, bad) ↦ let k'' = rw bad at k' in cc
                    | inl (read, good) ↦
                        let k'' = rw good at k' in
                        (fr_from_be_32_packed_iff bytes ids all).0 (good ∙ cc)
                  ]
            ]
      ]

  unpack_note_ids-fr_to_be_32_packed :
      (n : ℕ) (ids : List F)
      → IsBatch n ids
      → All IsByte (fr_to_be_32_packed ids)
      → unpack_note_ids n (fr_to_be_32_packed ids) ≡ ok ids
  unfolding unpack_note_ids check_batch_size
  unpack_note_ids-fr_to_be_32_packed n ids batch all =
      let positive : 1 ≤ n = batch.positive in
      let bounded : n ≤ max_pending_batch_size = batch.bounded in
      let fits : length ids ≤ n = batch.fits in
      let size = length-fr_to_be_32_packed ids in
      rw (
        le→leb 1 n positive,
        le→leb n max_pending_batch_size bounded,
        le→ltb (n * 32) (length (fr_to_be_32_packed ids)) (omega arith),
        (fr_from_be_32_packed_iff (fr_to_be_32_packed ids) ids all).1 refl,
      )

module _ {F T : Type 0} ⦃fr : Fr F⦄ ⦃int : FrInt F⦄ ⦃hash : FrHash F⦄
    (trees : AppendableNotesTree F T) where
  built-IsBatch :
      (t t' : T) (n : ℕ) (ids : List F) {b : BoundPendingCommitment F}
      → build_bound_pending_commitment trees t n ids ≡ (t', ok b)
      → IsBatch n ids
  unfolding build_bound_pending_commitment append_checked
  built-IsBatch t t' n ids h = elim (check_note_ids-cases n ids) [
    | inl (run, batch) ↦ batch
    | inr (e, run, fault) ↦ let refused = rw (run, build_bound_pending_commitment) at h in cc
  ]

  -- On bytes, a packed call commits exactly if the bytes are packed note ids and the call on those
  -- ids commits, with the same tree and the same commitment.
  pub build_bound_pending_commitment_packed_iff :
      (t t' : T) (n : ℕ) (bytes : List ℕ) (b : BoundPendingCommitment F)
      → All IsByte bytes
      → (build_bound_pending_commitment_packed trees t n bytes ≡ (t', ok b)) ↔ (
          (ids : List F) × (fr_to_be_32_packed ids ≡ bytes)
          × (build_bound_pending_commitment trees t n ids ≡ (t', ok b)))
  unfolding build_bound_pending_commitment_packed
  build_bound_pending_commitment_packed_iff t t' n bytes b all = (
    λ h. elim (Result-cases {A = List F} (unpack_note_ids n bytes)) [
      | inr (stop, bad) ↦ let k = rw (bad, build_bound_pending_commitment_packed) at h in cc
      | inl (ids, good) ↦ (
        ids,
        unpack_note_ids-ok n bytes ids all good,
        rw (good, build_bound_pending_commitment_packed) at h,
      )
    ],
    λ (ids, e, h).
        let run : unpack_note_ids n bytes ≡ ok ids =
          subst (λ (s : List ℕ). All IsByte s → unpack_note_ids n s ≡ ok ids) e
            (unpack_note_ids-fr_to_be_32_packed n ids (built-IsBatch t t' n ids h)) all in
        rw (run, build_bound_pending_commitment_packed) h,
  )
