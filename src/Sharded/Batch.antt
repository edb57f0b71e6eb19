-- ===== src/Sharded/Batch.antt =====
-- `append_many` of a sharded tree: whole segments at a time, rebuilt or inserted, with a cap update
-- for each segment.
use rs_core.Prelude.{
  ℕ, ◌+◌, ◌-◌, ◌^◌, ◌≡◌, List, [], ◌∷◌, Bool, true, false, get_elem?, some, length, take, drop, min,
  ◌&&◌,
}
use rs_core.Assoc.{find_at}
use rs_core.Field.{Fr}
use rs_core.Imt
use rs_core.Sharded.{free_for}
use rs_core.Sharded.Holds.{Holds}

module _ {F : Type 0} ⦃fr : Fr F⦄ where
  -- No owned note is expected at a place of the batch with another leaf.
  unfoldable pub all_free : List (ℕ × F) → ℕ → List F → Bool
  all_free places i [] = true
  all_free places i (leaf ∷ leaves) =
      free_for (find_at places i) leaf && all_free places (i + 1) leaves

  abbrev segment_of : ℕ → List F → List F → List F
  segment_of sh live more = take (min (2 ^ sh - length live) (length more)) more

  abbrev rest_of : ℕ → List F → List F → List F
  rest_of sh live more = drop (min (2 ^ sh - length live) (length more)) more

  -- `j` is the first place of the batch, counted from `i`, that is kept for another note.
  abbrev pub FirstTaken : List (ℕ × F) → ℕ → List F → ℕ → Type 0
  FirstTaken places i more j =
      (k : ℕ) × (note : F) × (j ≡ i + k)
      × (get_elem? more k ≡ some note)
      × (free_for (find_at places j) note ≡ false)
      × (all_free places i (take k more) ≡ true)
