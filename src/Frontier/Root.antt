-- ===== src/Frontier/Root.antt =====
-- Reading a frontier: the root, the siblings of the next leaf and the nodes on its left are those
-- of the full tree.
use rs_core.Prelude.{
  ℕ, zero, suc, ◌+◌, ◌-◌, ◌*◌, ◌/◌, ◌%◌, ◌^◌, ◌≤◌, ◌<◌, ◌≡◌, refl, sym, ap, ap₂, ◌∙◌, List, [],
  none, some, arith, length, get_elem?, get_or_beyond, ltb, leb, ◌==◌, if◌then◌else◌, unwrap_or,
  Bool-cases, inl, inr, eq→==, neq→==, ==→eq, ◌||◌,
}
use rs_core.Prelude.Halves.{half-lt-pow, half_pow}
use rs_core.Outcome.{ok, err, index_ok, tree_full, invalid_geometry}
use rs_core.Field.{Fr}
use rs_core.Geometry.{tree_capacity_lem, zero_roots_lem, zero_roots_from}
use rs_core.Merkle.{padded, pairs, subtree, merkle_root, merkle_path, merkle_frontier, other}
use rs_core.Frontier.{
  new, root, root_loop, capacity_or_max, siblings_loop, left_nodes_loop, occupied_slot,
  next_leaf_frontier,
}
use rs_core.Frontier.Canonical.{slots_of, frontier_of, slots_of_empty}
use native.Mathlib.Numerals.{add-one}

capacity_or_max_lem : (d : ℕ) → d < 64 → capacity_or_max d ≡ 2 ^ d
unfolding capacity_or_max
capacity_or_max_lem d h = rw (tree_capacity_lem d h, capacity_or_max)

module _ {F : Type 0} ⦃fr : Fr F⦄ where
  -- Nothing but zero leaves from place `n` on.
  abbrev pub EmptyFrom : ℕ → (ℕ → F) → F → Type 0
  EmptyFrom n f z = (i : ℕ) → n ≤ i → f i ≡ z

  Empty_from-pairs :
      (n : ℕ) (f : ℕ → F) (z : F) (i : ℕ)
      → EmptyFrom n f z
      → n ≤ 2 * i
      → pairs f i ≡ fr.poseidon z z
  Empty_from-pairs n f z i h k = ap₂ fr.poseidon (h (2 * i) k) (h (2 * i + 1) (omega arith))

  -- Folding in the stored left half, or the level's zero, gives the node one level up.
  fold_step :
      (f : ℕ → F) (z : F) (n : ℕ)
      → EmptyFrom (n + 1) f z
      → (if n % 2 == 1
          then fr.poseidon (unwrap_or (if n % 2 == 1 then some (f (n - 1)) else none) z) (f n)
          else fr.poseidon (f n) z)
        ≡ pairs f (n / 2)
  fold_step f z n e = elim (Bool-cases (n % 2 == 1)) [
    | inl odd ↦ rw odd (ap₂ (λ i j. fr.poseidon (f i) (f j)) (ground arith) (ground arith))
    | inr even ↦
        rw (even, ← e (n + 1) (omega arith))
          (ap₂ (λ i j. fr.poseidon (f i) (f j)) (ground arith) (ground arith))
  ]

  -- `f n` is the node so far, over the leaves and empty ones.
  root_loop-slots_of :
      (d k m : ℕ) (f : ℕ → F) (z : F) (n : ℕ)
      → d ≤ k
      → d ≤ m
      → EmptyFrom (n + 1) f z
      → n < 2 ^ d
      → root_loop d (slots_of k f n) (zero_roots_from m z) (f n) n ≡ ok (subtree d f 0)
  unfolding root_loop slots_of zero_roots_from subtree
  root_loop-slots_of zero k m f z zero h h' e b = refl
  root_loop-slots_of zero k m f z (suc n) h h' e b = absurd (omega arith)
  root_loop-slots_of (suc d) zero m f z n h h' e b = absurd (omega arith)
  root_loop-slots_of (suc d) (suc k) zero f z n h h' e b = absurd (omega arith)
  root_loop-slots_of (suc d) (suc k) (suc m) f z n h h' e b =
      ap
        (λ node.
          root_loop d (slots_of k (pairs f) (n / 2)) (zero_roots_from m (fr.poseidon z z)) node
            (n / 2))
        (fold_step f z n e)
      ∙ root_loop-slots_of d k m (pairs f) (fr.poseidon z z) (n / 2) (omega arith) (omega arith)
          (λ i k. Empty_from-pairs (n + 1) f z i e (omega arith)) (half-lt-pow d n b)

  -- A full tree keeps its root in the slot behind the levels.
  get_elem?-slots_of :
      (d : ℕ) (f : ℕ → F) → get_elem? (slots_of (suc d) f (2 ^ d)) d ≡ some (some (subtree d f 0))
  unfolding slots_of subtree
  get_elem?-slots_of zero f = refl
  get_elem?-slots_of (suc d) f =
      ap (λ n. get_elem? (slots_of (suc d) (pairs f) n) d) (half_pow d)
      ∙ get_elem?-slots_of d (pairs f)

  get_elem?-zero_roots_from :
      (d m : ℕ) (z : F) → d ≤ m → (r : F) × (get_elem? (zero_roots_from m z) d ≡ some r)
  unfolding zero_roots_from
  get_elem?-zero_roots_from zero zero z h = (z, refl)
  get_elem?-zero_roots_from zero (suc m) z h = (z, refl)
  get_elem?-zero_roots_from (suc d) zero z h = absurd (omega arith)
  get_elem?-zero_roots_from (suc d) (suc m) z h =
      get_elem?-zero_roots_from d m (fr.poseidon z z) (omega arith)

  head-zero_roots_from : (m : ℕ) (z : F) → get_elem? (zero_roots_from m z) 0 ≡ some z
  unfolding zero_roots_from
  head-zero_roots_from zero z = refl
  head-zero_roots_from (suc m) z = refl

  -- At a depth below 64, `root` of the frontier of leaves that fit is the Merkle root of these
  -- leaves.
  pub root-frontier_of :
      (d sh : ℕ) (leaves : List F)
      → d < 64
      → length leaves ≤ 2 ^ d
      → root (frontier_of d sh leaves) ≡ ok (merkle_root d fr.zero leaves)
  unfolding root frontier_of merkle_root
  root-frontier_of d sh leaves c h =
      rw (capacity_or_max_lem d c, add-one d)
        (elim (Bool-cases (length leaves == 2 ^ d)) [
          | inl full ↦
              rw (full, ==→eq _ _ full)
                (rw (
                  index_ok _ d (get_elem?-slots_of d (padded leaves fr.zero)),
                  index_ok _ d (get_elem?-zero_roots_from d d fr.zero (omega arith)).1,
                ))
          | inr more ↦
              rw (more, index_ok _ 0 (head-zero_roots_from d fr.zero))
                (ap
                    (λ node.
                      root_loop d (slots_of (suc d) (padded leaves fr.zero) (length leaves))
                        (zero_roots_from d fr.zero) node (length leaves))
                    (sym (get_or_beyond leaves (length leaves) fr.zero (omega arith)))
                  ∙ root_loop-slots_of d (suc d) d (padded leaves fr.zero) fr.zero (length leaves)
                      (omega arith) (omega arith)
                      (λ i k. get_or_beyond leaves i fr.zero (omega arith)) (ground arith))
        ])

  sibling_slot :
      (level : ℕ) (f : ℕ → F) (z : F) (n : ℕ)
      → EmptyFrom (n + 1) f z
      → (if n % 2 == 0
          then ok z
          else occupied_slot level (if n % 2 == 1 then some (f (n - 1)) else none))
        ≡ ok (f (other n))
  unfolding occupied_slot other
  sibling_slot level f z n e = elim (Bool-cases (n % 2 == 0)) [
    | inl even ↦ rw even (ap ok (sym (e (other n) (ground arith))))
    | inr odd ↦ rw (odd, eq→== (n % 2) 1 (ground arith)) (ap (λ i. ok (f i)) (ground arith))
  ]

  left_slot :
      (level : ℕ) (f : ℕ → F) (n : ℕ)
      → (if n % 2 == 0
          then ok fr.zero
          else occupied_slot level (if n % 2 == 1 then some (f (n - 1)) else none))
        ≡ ok (if n % 2 == 1 then f (n - 1) else fr.zero)
  unfolding occupied_slot
  left_slot level f n = elim (Bool-cases (n % 2 == 0)) [
    | inl even ↦ rw (even, neq→== (n % 2) 1 (ground arith))
    | inr odd ↦ rw (odd, eq→== (n % 2) 1 (ground arith))
  ]

  -- The siblings of the next leaf: the stored nodes on its left, and empty subtrees on its right.
  pub siblings_loop-slots_of :
      (d k m level : ℕ) (f : ℕ → F) (z : F) (n : ℕ)
      → d ≤ k
      → d ≤ m
      → EmptyFrom (n + 1) f z
      → siblings_loop d (slots_of k f n) (zero_roots_from m z) level n ≡ ok (merkle_path d f n)
  unfolding siblings_loop slots_of zero_roots_from merkle_path
  siblings_loop-slots_of zero k m level f z n h h' e = refl
  siblings_loop-slots_of (suc d) zero m level f z n h h' e = absurd (omega arith)
  siblings_loop-slots_of (suc d) (suc k) zero level f z n h h' e = absurd (omega arith)
  siblings_loop-slots_of (suc d) (suc k) (suc m) level f z n h h' e =
      rw
        (siblings_loop-slots_of d k m (level + 1) (pairs f) (fr.poseidon z z) (n / 2) (omega arith)
          (omega arith) (λ i j. Empty_from-pairs (n + 1) f z i e (omega arith)))
        (rw (sibling_slot level f z n e))

  left_nodes_loop-slots_of :
      (d k level : ℕ) (f : ℕ → F) (n : ℕ)
      → d ≤ k
      → left_nodes_loop d (slots_of k f n) level n ≡ ok (merkle_frontier d f n)
  unfolding left_nodes_loop slots_of merkle_frontier
  left_nodes_loop-slots_of zero k level f n h = refl
  left_nodes_loop-slots_of (suc d) zero level f n h = absurd (omega arith)
  left_nodes_loop-slots_of (suc d) (suc k) level f n h =
      rw (left_nodes_loop-slots_of d k (level + 1) (pairs f) (n / 2) (omega arith))
        (rw (left_slot level f n))

  -- At a depth below 64, `next_leaf_frontier` of the frontier of a list of leaves returns the
  -- roots of the finished subtrees on the left of the next free place, with zero where the next
  -- leaf's node is a left one, and reports a full tree.
  pub next_leaf_frontier-frontier_of :
      (d sh : ℕ) (leaves : List F)
      → d < 64
      → next_leaf_frontier (frontier_of d sh leaves) ≡ (
          if ltb (length leaves) (2 ^ d)
          then ok (merkle_frontier d (padded leaves fr.zero) (length leaves))
          else err (tree_full d))
  unfolding next_leaf_frontier frontier_of
  next_leaf_frontier-frontier_of d sh leaves c =
      rw (tree_capacity_lem d c) (elim (Bool-cases (ltb (length leaves) (2 ^ d))) [
        | inl room ↦ rw room (
            left_nodes_loop-slots_of d (d + 1) 0 (padded leaves fr.zero) (length leaves)
              (omega arith))
        | inr full ↦ rw full
      ])

  -- At a depth below 64, `new` gives the frontier of no leaves when the shard height is positive
  -- and below the depth, and reports any other height as invalid geometry.
  pub new-frontier_of :
      (d sh : ℕ)
      → d < 64
      → new {F = F} d sh
        ≡ (if sh == 0 || leb d sh then err (invalid_geometry d sh) else ok (frontier_of d sh []))
  unfolding new frontier_of
  new-frontier_of d sh c = elim (Bool-cases (sh == 0 || leb d sh)) [
    | inl bad ↦ rw bad
    | inr good ↦ rw good (
        rw (
          tree_capacity_lem sh (ground arith),
          tree_capacity_lem d c,
          zero_roots_lem d,
          slots_of_empty (d + 1) (padded [] fr.zero),
        ))
  ]
