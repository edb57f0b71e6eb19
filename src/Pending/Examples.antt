-- ===== src/Pending/Examples.antt =====
-- A batch of two notes, padded to three, into a frontier of three leaves.
use rs_core.Prelude.{ℕ, ◌≡◌, ◌↔◌, ◌⊎◌, refl, List, [], ◌∷◌, ◌++◌, replicate, arith}
use rs_core.Result.{Result, ok, err}
use rs_core.Frontier.{NotesFrontier}
use rs_core.Frontier.Canonical.{frontier_of}
use rs_core.Wire.Packed.{fr_to_be_32_packed}
use rs_core.Appendable.Instances.{FrontierHolds, frontier_instance}
use rs_core.Pending.{
  Stop, BoundPendingCommitment, build_bound_pending_commitment,
  build_bound_pending_commitment_packed,
}
use rs_core.Pending.Laws.{Refused, Commits, build_bound_pending_commitment-Commits}
use rs_core.Pending.Packed.{build_bound_pending_commitment_packed_iff}
use rs_core.Toy.{Residue, residue, residue_field, residue_int, residue_hash}

abbrev leaves : List Residue
leaves = residue 10 ∷ residue 20 ∷ residue 30 ∷ []

abbrev before : NotesFrontier Residue
before = frontier_of 3 1 leaves

abbrev batch : List Residue
batch = residue 40 ∷ residue 50 ∷ []

before-FrontierHolds : FrontierHolds 3 leaves before
before-FrontierHolds = record {
  constructible = omega arith;
  room = omega arith;
  height = 1;
  sharded = omega arith;
  canonical = refl;
}

build_bound_pending_commitment-Commits_example :
    ((t' : NotesFrontier Residue) × (b : BoundPendingCommitment Residue)
      × (build_bound_pending_commitment frontier_instance before 3 batch ≡ (t', ok b))
      × Commits frontier_instance 3 leaves before 3 batch t' b)
    ⊎ ((stop : Stop) × (build_bound_pending_commitment frontier_instance before 3 batch
          ≡ (before, err stop))
        × Refused frontier_instance before 3 batch stop)
unfolding frontier_instance
build_bound_pending_commitment-Commits_example =
    build_bound_pending_commitment-Commits frontier_instance 3 leaves before 3 batch
      before-FrontierHolds

abbrev packed : List ℕ
packed = replicate 31 0 ++ (40 ∷ replicate 31 0) ++ (50 ∷ [])

abbrev result : NotesFrontier Residue × Result Stop (BoundPendingCommitment Residue)
result = build_bound_pending_commitment_packed frontier_instance before 3 packed

-- What the call returned.
abbrev commitment_of : Result Stop (BoundPendingCommitment Residue) → BoundPendingCommitment Residue
commitment_of (ok b) = b
commitment_of (err stop) = record {
  current_note_index = 0;
  current_notes_root = residue 0;
  pending_note_ids = [];
  frontier = [];
  new_notes_root = residue 0;
  new_note_index = 0;
  binding = record { commitment = residue 0; y = residue 0; x = residue 0 };
}

build_bound_pending_commitment_packed_iff_example :
    (build_bound_pending_commitment_packed frontier_instance before 3 packed
      ≡ (result.0, ok (commitment_of result.1)))
    ↔ ((ids : List Residue) × (fr_to_be_32_packed ids ≡ packed)
        × (build_bound_pending_commitment frontier_instance before 3 ids
            ≡ (result.0, ok (commitment_of result.1))))
build_bound_pending_commitment_packed_iff_example =
    build_bound_pending_commitment_packed_iff frontier_instance before result.0 3 packed
      (commitment_of result.1) (omega arith)
