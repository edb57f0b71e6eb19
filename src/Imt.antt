-- ===== src/Imt.antt =====
-- `Imt` of crates/core/src/imt.rs, the incremental Merkle tree of arity two.
-- A loop over the levels `0..depth` recurs on the levels left and walks down the rows `nodes` and
-- the `zeroes` beside them; a row that is not there is an index out of bounds, so a panic.
pub mod Parents
pub mod Canonical
pub mod Insert
pub mod Build
pub mod Root
pub mod Update
pub mod InsertMany
pub mod Client
mod Examples
use rs_core.Prelude.{
  ℕ, zero, suc, ◌+◌, ◌-◌, ◌*◌, ◌/◌, ◌%◌, ◌^◌, Bool, true, false, not, ◌&&◌, List, [], ◌∷◌, ◌++◌,
  ltb, leb, ◌==◌, if◌then◌else◌, length, get_elem?, get_or, set, Option, take, replicate,
}
use rs_core.Outcome.{
  Outcome, ok, err, panic, ◌>>=◌, ◌>>◌, ensure, assert, expect, index, write, slice_from, TreeError,
  capacity_overflow, tree_full, leaf_index_out_of_range,
}
use rs_core.Field.{Fr}
use rs_core.Geometry.{tree_capacity, zero_roots_from}
use rs_core.Proof.{InclusionProof}

pub record Imt (F : Type 0) : Type 0 where
  pub depth : ℕ
  pub zero_leaf : F
  pub zeroes : List F
  pub nodes : List (List F)

unfoldable pub is_empty {ℓ} : {A : Type ℓ} → List A → Bool
is_empty [] = true
is_empty (x ∷ xs) = false

pub sibling_index : ℕ → ℕ
sibling_index i = if i % 2 == 0 then i + 1 else i - 1

-- `nodes[0]`; every constructor makes at least one row.
abbrev pub first_row {ℓ} : {A : Type ℓ} → List (List A) → List A
first_row [] = []
first_row (row ∷ rows) = row

pub leaf : {F : Type 0} → Imt F → ℕ → Option F
leaf t i = get_elem? (first_row t.nodes) i

pub leaf_count : {F : Type 0} → Imt F → ℕ
leaf_count t = length (first_row t.nodes)

module _ {F : Type 0} ⦃fr : Fr F⦄ where
  -- `level.chunks(2)`: a last node without a sibling is hashed with `zero`.
  unfoldable pub build_parent_level : List F → F → List F
  build_parent_level [] z = []
  build_parent_level (a ∷ []) z = fr.poseidon a z ∷ []
  build_parent_level (a ∷ b ∷ level) z = fr.poseidon a b ∷ build_parent_level level z

  pub new_with_zero : ℕ → F → Outcome (Imt F)
  new_with_zero depth z = do
    _ ← expect (tree_capacity depth)
    let zs = zero_roots_from depth z
    top ← index zs depth
    ok (record {
      depth = depth;
      zero_leaf = z;
      zeroes = take depth zs;
      nodes = if depth == 0 then [] ∷ [] else replicate depth [] ++ ((top ∷ []) ∷ []);
    })

  pub new : ℕ → Outcome (Imt F)
  new depth = new_with_zero depth fr.zero

  -- `for level in 0..depth { nodes[level + 1] = build_parent_level(&nodes[level], zeroes[level]) }`
  pub build_loop : ℕ → List F → List F → Outcome (List (List F))
  build_loop zero zs row = ok (row ∷ [])
  build_loop (suc d) (z ∷ zs) row = do
    rows ← build_loop d zs (build_parent_level row z)
    ok (row ∷ rows)
  build_loop (suc d) [] row = panic

  pub from_leaves_with_zero : ℕ → F → List F → Outcome (Imt F)
  from_leaves_with_zero depth z leaves = do
    capacity ← expect (tree_capacity depth)
    assert (leb (length leaves) capacity)
    t ← new_with_zero depth z
    if is_empty leaves
        then ok t
        else do nodes ← build_loop depth t.zeroes leaves; ok (record t { nodes = nodes })

  pub from_leaves : ℕ → List F → Outcome (Imt F)
  from_leaves depth leaves = from_leaves_with_zero depth fr.zero leaves

  -- `row[index] = node`, or an append after `resize(index, zero)`.
  pub place : List F → ℕ → F → F → List F
  place row i node z =
      if ltb i (length row)
      then set row i node
      else (take i row ++ replicate (i - length row) z) ++ (node ∷ [])

  -- The parent of the pair that holds place `i` of `row`.
  pub hash_pair : List F → ℕ → F → F
  hash_pair row i z =
      let start = i - i % 2 in fr.poseidon (get_or row start z) (get_or row (start + 1) z)

  pub insert_loop : ℕ → List F → List (List F) → F → ℕ → Outcome (List (List F))
  insert_loop (suc d) (z ∷ zs) (row ∷ rows) node i = do
    let row' = place row i node z
    above ← insert_loop d zs rows (hash_pair row' i z) (i / 2)
    ok (row' ∷ above)
  insert_loop (suc d) [] rows node i = panic
  insert_loop (suc d) (z ∷ zs) [] node i = panic
  insert_loop zero zs ([] ∷ rows) node i = ok ((node ∷ []) ∷ rows)
  insert_loop zero zs ((top ∷ row) ∷ rows) node i = ok ((node ∷ row) ∷ rows)
  insert_loop zero zs [] node i = panic

  pub insert : Imt F → F → Outcome (Imt F)
  unfolding leaf_count
  insert t leaf = do
    capacity ← expect (tree_capacity t.depth)
    assert (ltb (leaf_count t) capacity)
    nodes ← insert_loop t.depth t.zeroes t.nodes leaf (leaf_count t)
    ok (record t { nodes = nodes })

  pub insert_many_loop : ℕ → List F → List F → List (List F) → ℕ → Outcome (List (List F))
  insert_many_loop zero zs row rows first = ok (row ∷ rows)
  insert_many_loop (suc d) (z ∷ zs) row (up ∷ rows) first = do
    let half = first / 2
    children ← slice_from row (2 * half)
    above ← insert_many_loop d zs (take half up ++ build_parent_level children z) rows half
    ok (row ∷ above)
  insert_many_loop (suc d) [] row rows first = panic
  insert_many_loop (suc d) (z ∷ zs) row [] first = panic

  pub insert_many : Imt F → List F → Outcome (Imt F)
  unfolding leaf_count
  insert_many t leaves = do
    capacity ← tree_capacity t.depth
    ensure (not (ltb (capacity - leaf_count t) (length leaves))) (tree_full t.depth)
    if is_empty leaves then ok t else do
      nodes ← elim t.nodes [
        | [] ↦ panic
        | row ∷ rows ↦ insert_many_loop t.depth t.zeroes (row ++ leaves) rows (leaf_count t)
      ]
      ok (record t { nodes = nodes })

  pub update_loop : ℕ → List F → List F → List (List F) → ℕ → Outcome (List (List F))
  update_loop zero zs row rows i = ok (row ∷ rows)
  update_loop (suc d) (z ∷ zs) row (up ∷ rows) i = do
    up' ← write up (i / 2) (hash_pair row i z)
    above ← update_loop d zs up' rows (i / 2)
    ok (row ∷ above)
  update_loop (suc d) [] row rows i = panic
  update_loop (suc d) (z ∷ zs) row [] i = panic

  pub update : Imt F → ℕ → F → Outcome (Imt F)
  unfolding leaf_count
  update t i leaf = do
    ensure (ltb i (leaf_count t)) (leaf_index_out_of_range i (leaf_count t))
    nodes ← elim t.nodes [
      | [] ↦ panic
      | row ∷ rows ↦ update_loop t.depth t.zeroes (set row i leaf) rows i
    ]
    ok (record t { nodes = nodes })

  pub truncate : Imt F → ℕ → Outcome (Imt F)
  unfolding leaf_count
  truncate t n = do
    ensure (not (ltb (leaf_count t) n)) (leaf_index_out_of_range n (leaf_count t))
    from_leaves_with_zero t.depth t.zero_leaf (take n (first_row t.nodes))

  pub root : Imt F → Outcome F
  root t =
      if (t.depth == 0) && is_empty (first_row t.nodes)
      then ok t.zero_leaf
      else do row ← index t.nodes t.depth; index row 0

  -- `position` is `index >> level`.
  pub frontier_loop : ℕ → List (List F) → ℕ → Outcome (List F)
  frontier_loop zero rows position = ok []
  frontier_loop (suc d) (row ∷ rows) position = do
    node ← (if position % 2 == 1 then index row (position - 1) else ok fr.zero)
    above ← frontier_loop d rows (position / 2)
    ok (node ∷ above)
  frontier_loop (suc d) [] position = panic

  pub next_leaf_frontier : Imt F → Outcome (List F)
  unfolding leaf_count
  next_leaf_frontier t = do
    capacity ← tree_capacity t.depth
    ensure (ltb (leaf_count t) capacity) (tree_full t.depth)
    frontier_loop t.depth t.nodes (leaf_count t)

  pub proof_loop : ℕ → List F → List (List F) → ℕ → Outcome (List F)
  proof_loop zero zs rows i = ok []
  proof_loop (suc d) (z ∷ zs) (row ∷ rows) i = do
    above ← proof_loop d zs rows (i / 2)
    ok (get_or row (sibling_index i) z ∷ above)
  proof_loop (suc d) [] rows i = panic
  proof_loop (suc d) (z ∷ zs) [] i = panic

  pub create_proof : Imt F → ℕ → Outcome (InclusionProof F)
  unfolding leaf_count
  create_proof t i = do
    assert (ltb i (leaf_count t))
    leaf ← index (first_row t.nodes) i
    siblings ← proof_loop t.depth t.zeroes t.nodes i
    top ← root t
    ok (record { leaf = leaf; index = i; siblings = siblings; root = top })
