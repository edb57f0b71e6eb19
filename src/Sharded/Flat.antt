-- ===== src/Sharded/Flat.antt =====
-- `sharded_witness` of crates/core/src/imt.rs: an inclusion proof from all leaves at once.
use rs_core.Prelude.{
  ℕ, zero, suc, ◌+◌, ◌-◌, ◌*◌, ◌/◌, ◌%◌, ◌^◌, ◌≤◌, ◌<◌, ◌≡◌, refl, sym, ap, ap₂, ◌∙◌, List, [], ◌∷◌,
  ◌++◌, arith, length, take, drop, min, length-take, length-drop, get_or, ltb, if◌then◌else◌,
  Bool-cases, inl, inr, le→leb, leb, get_or_beyond,
}
use native.Mathlib.Nat.{mod-lt, div-add-mod, lt_of_mul-lt-mul_right}
use rs_core.Prelude.Halves.{pow_pos, pow_double}
use rs_core.Outcome.{Outcome, ok, panic, ◌>>=◌, index, index_ok, index-get_or, >>=-ok}
use rs_core.Field.{Fr}
use rs_core.Geometry.{zero_roots}
use rs_core.Merkle.{padded, pairs, merkle_root, merkle_path, other}
use rs_core.Merkle.Shards.{merkle_path_cut, merkle_path_window}
use rs_core.Proof.{InclusionProof}
use rs_core.Proof.Paths.{proof_of}
use rs_core.Imt
use rs_core.Imt.{is_empty, sibling_index, build_parent_level}
use rs_core.Imt.Build.{from_leaves-tree_of}
use rs_core.Imt.Root.{create_proof_inside, padded-build_parent_level, sibling_index-other}
use rs_core.Sharded.Canonical.{tabulate, shard, empty_shard}
use rs_core.Sharded.Stateless.{
  shard_roots, cap_levels, next_level, index_zero, next_level_lem, empty_shard-suc,
  shard_roots_loop_lem, root_of_shards, padded_shards, get_or-take, get_or-drop,
}

module _ {F : Type 0} ⦃fr : Fr F⦄ where
  -- The loop over the levels of the cap. `idx ^ 1` is the place of the sibling.
  pub cap_path : (rounds : ℕ) → List (List F) → List F → ℕ → ℕ → Outcome (List F)
  cap_path zero levels z h idx = ok []
  cap_path (suc rounds) [] z h idx = panic
  cap_path (suc rounds) (row ∷ levels) z h idx = do
    let sib = sibling_index idx
    node ← (if ltb sib (length row) then index row sib else index z h)
    above ← cap_path rounds levels z (h + 1) (idx / 2)
    ok (node ∷ above)

  -- `&leaves[start..end]` with the end at most that of the leaves.
  pub shard_slice : List F → ℕ → ℕ → Outcome (List F)
  shard_slice leaves start size =
      let end = min (start + size) (length leaves) in
      if leb start end then ok (take (end - start) (drop start leaves)) else panic

  pub sharded_witness : List F → ℕ → ℕ → ℕ → Outcome (InclusionProof F)
  unfolding shard_slice
  sharded_witness leaves leaf_index depth sh = do
    let z = zero_roots depth
    let shard_index = leaf_index / 2 ^ sh
    let within_index = leaf_index % 2 ^ sh
    shard_leaves ← shard_slice leaves (shard_index * 2 ^ sh) (2 ^ sh)
    t ← Imt.from_leaves sh shard_leaves
    p ← Imt.create_proof t within_index
    roots ← shard_roots leaves sh
    levels ← cap_levels (depth - sh) roots z sh
    cap ← cap_path (depth - sh) levels z sh shard_index
    top ← index levels (depth - sh)
    leaf ← index leaves leaf_index
    root ← (if is_empty top then index z depth else index top 0)
    ok (record { leaf = leaf; index = leaf_index; siblings = p.siblings ++ cap; root = root })

  up_nodes :
      (h : ℕ) (level : List F)
      → padded (next_level level (empty_shard h)) (empty_shard (h + 1))
        ≡ pairs (padded level (empty_shard h))
  up_nodes h level =
      let plus : h + 1 ≡ suc h = omega arith in
      rw (next_level_lem level (empty_shard h), plus, ← empty_shard-suc h)
        (padded-build_parent_level level (empty_shard h))

  sibling_node :
      (d h i : ℕ) (level : List F)
      → h ≤ d
      → (if ltb i (length level) then index level i else index (zero_roots d) h)
        ≡ ok (get_or level i (empty_shard h))
  sibling_node d h i level k = elim (Bool-cases (ltb i (length level))) [
    | inl inside ↦ rw (inside, index-get_or level i (empty_shard h) (ground arith))
    | inr outside ↦
        rw (outside, index_zero d h k, get_or_beyond level i (empty_shard h) (ground arith))
  ]

  -- The path in the cap, over levels as `cap_levels` makes them.
  cap_path_lem :
      (rounds d h idx : ℕ) (level : List F) {levels : List (List F)}
      → h + rounds ≡ d
      → cap_levels rounds level (zero_roots d) h ≡ ok levels
      → cap_path rounds levels (zero_roots d) h idx
        ≡ ok (merkle_path rounds (padded level (empty_shard h)) idx)
  unfolding cap_levels cap_path merkle_path
  cap_path_lem zero d h idx level e run = refl
  cap_path_lem (suc rounds) d h idx level {levels = levels} e run =
      let run₀ : (cap_levels rounds (next_level level (empty_shard h)) (zero_roots d) (h + 1)
            >>= λ ls. ok (level ∷ ls))
          ≡ ok levels =
        rw (index_zero d h (omega arith)) at run in
      let (up, run', e') =
        >>=-ok (λ ls. ok (level ∷ ls))
          (cap_levels rounds (next_level level (empty_shard h)) (zero_roots d) (h + 1)) run₀ in
      let split : levels ≡ level ∷ up = ground (arith, e') in
      rw (
        split,
        sibling_node d h (sibling_index idx) level (omega arith),
        sibling_index-other idx,
        cap_path_lem rounds d (h + 1) (idx / 2) (next_level level (empty_shard h)) (omega arith)
            run',
        up_nodes h level,
      )

  -- A path reads the nodes of its own span alone.
  merkle_path-below :
      (r : ℕ) (f g : ℕ → F) (w : ℕ)
      → ((i : ℕ) → i < 2 ^ r → f i ≡ g i)
      → w < 2 ^ r
      → merkle_path r f w ≡ merkle_path r g w
  unfolding merkle_path other
  merkle_path-below zero f g w h k = refl
  merkle_path-below (suc r) f g w h k =
      ap₂ (λ a t. a ∷ t) (h (w / 2 * 2 + (1 - w % 2)) (omega (arith, pow_double r)))
        (merkle_path-below r (pairs f) (pairs g) (w / 2)
          (λ i l.
            ap₂ fr.poseidon (h (2 * i) (omega (arith, pow_double r)))
              (h (2 * i + 1) (omega (arith, pow_double r))))
          (omega (arith, pow_double r)))

  -- The leaves of the shard of place `i`.
  abbrev slice_of : ℕ → List F → ℕ → List F
  slice_of sh leaves i =
      take (min (i / 2 ^ sh * 2 ^ sh + 2 ^ sh) (length leaves) - i / 2 ^ sh * 2 ^ sh)
        (drop (i / 2 ^ sh * 2 ^ sh) leaves)

  slice_ok :
      (sh : ℕ) (leaves : List F) (i : ℕ)
      → i < length leaves
      → (shard_slice leaves (i / 2 ^ sh * 2 ^ sh) (2 ^ sh) ≡ ok (slice_of sh leaves i))
        × (i % 2 ^ sh < length (slice_of sh leaves i))
        × (length (slice_of sh leaves i) ≤ 2 ^ sh)
  unfolding shard_slice
  slice_ok sh leaves i h =
      let start = i / 2 ^ sh * 2 ^ sh in
      let size = length-take (min (start + 2 ^ sh) (length leaves) - start) (drop start leaves) in
      (
        rw (
            le→leb start (min (start + 2 ^ sh) (length leaves))
              (omega (arith, div-add-mod i (2 ^ sh), pow_pos sh))),
        omega (
          arith,
          size,
          length-drop start leaves,
          div-add-mod i (2 ^ sh),
          mod-lt i {m = 2 ^ sh} (pow_pos sh),
        ),
        omega (arith, size),
      )

  slice_nodes :
      (sh : ℕ) (leaves : List F) (i j : ℕ)
      → j < 2 ^ sh
      → padded (slice_of sh leaves i) fr.zero j ≡ padded leaves fr.zero (i / 2 ^ sh * 2 ^ sh + j)
  slice_nodes sh leaves i j h =
      let start = i / 2 ^ sh * 2 ^ sh in
      let size = length-take (min (start + 2 ^ sh) (length leaves) - start) (drop start leaves) in
      elim (Bool-cases (ltb (start + j) (length leaves))) [
        | inl inside ↦
            get_or-take (min (start + 2 ^ sh) (length leaves) - start) (drop start leaves) j fr.zero
              (ground arith)
            ∙ get_or-drop start leaves j (start + j) fr.zero refl
        | inr outside ↦
            get_or_beyond (slice_of sh leaves i) j fr.zero
              (ground (arith, size, length-drop start leaves))
            ∙ sym (get_or_beyond leaves (start + j) fr.zero (ground arith))
      ]

  slice_path :
      (sh : ℕ) (leaves : List F) (i : ℕ)
      → merkle_path sh (padded (slice_of sh leaves i) fr.zero) (i % 2 ^ sh)
        ≡ merkle_path sh (padded leaves fr.zero) i
  slice_path sh leaves i =
      let start = i / 2 ^ sh * 2 ^ sh in
      let place : start + i % 2 ^ sh ≡ i = omega (arith, div-add-mod i (2 ^ sh)) in
      merkle_path-below sh (padded (slice_of sh leaves i) fr.zero)
        (λ j. padded leaves fr.zero (start + j)) (i % 2 ^ sh) (λ j h. slice_nodes sh leaves i j h)
        (mod-lt i (pow_pos sh))
      ∙ sym (
          merkle_path_window sh (padded leaves fr.zero) (i / 2 ^ sh) (i % 2 ^ sh)
            (mod-lt i (pow_pos sh)))
      ∙ ap (merkle_path sh (padded leaves fr.zero)) place

  -- At a depth below 64 that the shard height is below, for leaves that fit and the place of one of
  -- them, `sharded_witness` is the inclusion proof of the flat tree.
  pub sharded_witness-proof_of :
      (d sh : ℕ) (leaves : List F) (i : ℕ)
      → d < 64
      → sh < d
      → length leaves ≤ 2 ^ d
      → i < length leaves
      → sharded_witness leaves i d sh ≡ ok (proof_of d (padded leaves fr.zero) i)
  unfolding sharded_witness shard_roots is_empty
  sharded_witness-proof_of d sh leaves i c cut room inside =
      let (slice, within, short) = slice_ok sh leaves i inside in
      let (count, roots, low, high) =
        shard_roots_loop_lem (length leaves) sh leaves (omega arith) (omega arith) in
      let some_shards : 0 < count = lt_of_mul-lt-mul_right (2 ^ sh) {m = 0} (omega arith) in
      let (levels, run, top) = root_of_shards d sh count leaves cut room low high some_shards in
      rw
        (
          slice,
          from_leaves-tree_of sh (slice_of sh leaves i) (omega arith),
          le→leb (length (slice_of sh leaves i)) (2 ^ sh) short,
          create_proof_inside sh fr.zero (slice_of sh leaves i) (i % 2 ^ sh) within,
          roots,
          run,
          cap_path_lem (d - sh) d sh (i / 2 ^ sh) (tabulate count (shard sh leaves)) (omega arith)
              run,
          index_ok levels (d - sh) top,
          index-get_or leaves i fr.zero inside,
        )
        (unfold merkle_root in
          ap {A = List F} {B = Outcome (InclusionProof F)}
            (λ s. ok (record (proof_of d (padded leaves fr.zero) i) { siblings = s }))
            (ap₂ (λ s s'. s ++ s') (slice_path sh leaves i)
                (ap (λ f. merkle_path (d - sh) f (i / 2 ^ sh)) (padded_shards sh count leaves low))
              ∙ sym (merkle_path_cut d sh (d - sh) (padded leaves fr.zero) i (omega arith))))
