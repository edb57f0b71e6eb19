-- ===== src/Pending.antt =====
-- Calldata-bound pending commitments of crates/core/src/witness/bound_pending.rs, over any tree of
-- the trait `AppendableNotesTree`. A call returns the tree as it leaves it and its result; the
-- errors that the trait's own calls return are passed on, and so is a panic.
pub mod Checks
pub mod Laws
pub mod Packed
mod Examples
use rs_core.Prelude.{
  ℕ, zero, suc, ◌+◌, ◌-◌, ◌*◌, ◌/◌, ◌&&◌, ◌||◌, Bool, true, false, not, List, [], ◌∷◌, ◌++◌, ltb,
  leb, ◌==◌, if◌then◌else◌, length, replicate,
}
use rs_core.Outcome.{Outcome, TreeError, duplicate_leaf, panic, slice}
use rs_core.Result.{Result, ok, err, ◌>>=◌, ◌>>◌, ensure, map_err}
use rs_core.Field.{Fr, same}
use rs_core.Wire.{FrInt}
use rs_core.Wire.Packed.{PackedFieldsError, fr_from_be_32_packed}
use rs_core.Calldata.{FrHash, CalldataBinding, CalldataError, bind_calldata}
use rs_core.Appendable.{AppendableNotesTree}
use rs_core.Indexed.Map.{contains}

abbrev pub max_pending_batch_size : ℕ
max_pending_batch_size = 4096

pub data PendingCommitmentError : Type 0 where
  invalid_batch_size : ℕ → PendingCommitmentError
  no_notes : PendingCommitmentError
  batch_too_large : ℕ → ℕ → PendingCommitmentError
  zero_note_id : PendingCommitmentError
  duplicate_note_id : PendingCommitmentError
  packed_note_ids : PackedFieldsError → PendingCommitmentError
  tree : TreeError → PendingCommitmentError
  binding : CalldataError → PendingCommitmentError

pub is_caller_error : PendingCommitmentError → Bool
is_caller_error (tree duplicate_leaf) = true
is_caller_error (tree _) = false
is_caller_error (binding _) = false
is_caller_error _ = true

-- How a call ends early.
pub data Stop : Type 0 where
  failed : PendingCommitmentError → Stop
  panicked : Stop

-- `?` on the result of a tree's operation.
pub of_tree : {A : Type 0} → Outcome A → Result Stop A
of_tree (Outcome.ok a) = ok a
of_tree (Outcome.err e) = err (failed (tree e))
of_tree panic = err panicked

pub record BoundPendingCommitment (F : Type 0) : Type 0 where
  pub current_note_index : ℕ
  pub current_notes_root : F
  pub pending_note_ids : List F
  pub frontier : List F
  pub new_notes_root : F
  pub new_note_index : ℕ
  pub binding : CalldataBinding F

module _ {F : Type 0} where
  pub note_ids : BoundPendingCommitment F → Outcome (List F)
  note_ids b =
      if leb b.current_note_index b.new_note_index
      then slice b.pending_note_ids 0 (b.new_note_index - b.current_note_index)
      else panic

module _ {F : Type 0} ⦃hash : FrHash F⦄ where
  unfoldable pub bound_pending_commitment_words : List F → F → F → ℕ → ℕ → List F
  bound_pending_commitment_words ids current_root new_root current_index new_index =
      ids ++ (current_root ∷ new_root ∷ hash.from_u64 current_index ∷ hash.from_u64 new_index ∷ [])

  pub words : BoundPendingCommitment F → List F
  unfolding bound_pending_commitment_words
  words b =
      bound_pending_commitment_words b.pending_note_ids b.current_notes_root b.new_notes_root
        b.current_note_index b.new_note_index

pub check_batch_size : ℕ → Result Stop (Unit {0})
check_batch_size n =
    if leb 1 n && leb n max_pending_batch_size then ok tt else err (failed (invalid_batch_size n))

module _ {F : Type 0} ⦃fr : Fr F⦄ where
  -- `note_ids.iter().all(|note_id| seen.insert(*note_id))`
  pub all_new : (F → Bool) → List F → Bool
  all_new seen [] = true
  all_new seen (id ∷ ids) = not (seen id) && all_new (λ x. same x id || seen x) ids

  pub check_note_ids : ℕ → List F → Result Stop (Unit {0})
  unfolding check_batch_size all_new
  check_note_ids batch_size ids = do
    check_batch_size batch_size
    ensure (not (length ids == 0)) (failed no_notes)
    ensure (not (ltb batch_size (length ids))) (failed (batch_too_large (length ids) batch_size))
    ensure (not (contains ids fr.zero)) (failed zero_note_id)
    ensure (all_new (λ x. false) ids) (failed duplicate_note_id)

module _ {F : Type 0} ⦃int : FrInt F⦄ where
  -- Up to the decoded note ids.
  unfoldable pub unpack_note_ids : ℕ → List ℕ → Result Stop (List F)
  unfolding check_batch_size
  unpack_note_ids batch_size bytes = do
    check_batch_size batch_size
    ensure (not (ltb (batch_size * 32) (length bytes)))
        (failed (batch_too_large ((length bytes + 31) / 32) batch_size))
    map_err (λ e. failed (packed_note_ids e)) (fr_from_be_32_packed bytes)

-- What is known once the batch is in the tree.
pub record Appended (F T : Type 0) : Type 0 where
  pub after : T
  pub before_index : ℕ
  pub before_root : F
  pub padded_ids : List F
  pub next_frontier : List F

module _ {F T : Type 0} ⦃fr : Fr F⦄ ⦃int : FrInt F⦄ ⦃hash : FrHash F⦄
    (trees : AppendableNotesTree F T) where
  -- Up to `tree.append_all(note_ids)?`; before it ends, the tree is as it was.
  unfoldable pub append_checked : T → ℕ → List F → Result Stop (Appended F T)
  unfolding check_note_ids of_tree
  append_checked t batch_size ids = do
    check_note_ids batch_size ids
    current_root ← of_tree (trees.root t)
    frontier ← of_tree (trees.next_leaf_frontier t)
    after ← of_tree (trees.append_all t ids)
    ok (record {
      after = after;
      before_index = trees.leaf_count t;
      before_root = current_root;
      padded_ids = ids ++ replicate (batch_size - length ids) fr.zero;
      next_frontier = frontier;
    })

  -- From there on, with the changed tree.
  unfoldable pub bind_appended : Appended F T → Result Stop (BoundPendingCommitment F)
  unfolding of_tree bound_pending_commitment_words
  bind_appended s = do
    new_root ← of_tree (trees.root s.after)
    bound ←
        map_err (λ e. failed (binding e))
          (bind_calldata (
            bound_pending_commitment_words s.padded_ids s.before_root new_root s.before_index
              (trees.leaf_count s.after)))
    ok (record {
      current_note_index = s.before_index;
      current_notes_root = s.before_root;
      pending_note_ids = s.padded_ids;
      frontier = s.next_frontier;
      new_notes_root = new_root;
      new_note_index = trees.leaf_count s.after;
      binding = bound;
    })

  unfoldable pub build_bound_pending_commitment :
      T → ℕ → List F → T × Result Stop (BoundPendingCommitment F)
  unfolding append_checked bind_appended
  build_bound_pending_commitment t batch_size ids = elim (append_checked t batch_size ids) [
    | ok s ↦ (s.after, bind_appended s)
    | err stop ↦ (t, err stop)
  ]

  unfoldable pub build_bound_pending_commitment_packed :
      T → ℕ → List ℕ → T × Result Stop (BoundPendingCommitment F)
  unfolding unpack_note_ids build_bound_pending_commitment
  build_bound_pending_commitment_packed t batch_size bytes =
      elim (unpack_note_ids batch_size bytes) [
        | ok ids ↦ build_bound_pending_commitment t batch_size ids
        | err stop ↦ (t, err stop)
      ]
