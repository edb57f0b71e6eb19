-- ===== src/Appendable.antt =====
-- The trait `AppendableNotesTree` of crates/core/src/imt.rs, with what its two implementations,
-- `IndexedMerkleTree` and `NotesFrontier`, promise their clients.
pub mod Instances
pub mod Agree
mod Examples
use rs_core.Prelude.{ℕ, ◌+◌, ◌^◌, ◌≤◌, ◌≡◌, ◌<◌, List, ◌++◌, length, sym, ◌∙◌}
use rs_core.Outcome.{Outcome, ok}
use rs_core.Field.{Fr}
use rs_core.Merkle.{padded, merkle_root, merkle_frontier}

-- `holds d leaves t`: `t` is a tree of depth `d` to which exactly `leaves` have been appended.
pub record AppendableNotesTree (F : Type 0) ⦃fr : Fr F⦄ (T : Type 0) : Type 1 where
  pub depth : T → ℕ
  pub leaf_count : T → ℕ
  pub root : T → Outcome F
  pub next_leaf_frontier : T → Outcome (List F)
  pub append_all : T → List F → Outcome T
  pub holds : ℕ → List F → T → Type 0
  pub depth-holds : (d : ℕ) (leaves : List F) (t : T) → holds d leaves t → depth t ≡ d
  pub leaf_count-holds :
      (d : ℕ) (leaves : List F) (t : T) → holds d leaves t → leaf_count t ≡ length leaves
  pub root-holds :
      (d : ℕ) (leaves : List F) (t : T)
      → holds d leaves t
      → root t ≡ ok (merkle_root d fr.zero leaves)
  pub next_leaf_frontier-holds :
      (d : ℕ) (leaves : List F) (t : T)
      → holds d leaves t
      → length leaves < 2 ^ d
      → next_leaf_frontier t ≡ ok (merkle_frontier d (padded leaves fr.zero) (length leaves))
  pub append_all-holds :
      (d : ℕ) (leaves more : List F) (t t' : T)
      → holds d leaves t
      → append_all t more ≡ ok t'
      → holds d (leaves ++ more) t' × (length leaves + length more ≤ 2 ^ d)
