-- ===== src/Sharded/Stateless.antt =====
-- `shard_roots`, `cap_levels` and `sharded_root` of crates/core/src/imt.rs: the root of a sharded
-- tree from all its leaves at once.
use rs_core.Prelude.{
  ℕ, zero, suc, ◌+◌, ◌-◌, ◌*◌, ◌^◌, ◌≤◌, ◌<◌, ◌≡◌, refl, sym, ap, ap₂, ◌∙◌, fun_ext, List, [], ◌∷◌,
  ◌++◌, arith, length, take, drop, length-take, length-drop, get_or, get_elem?, some, ltb,
  if◌then◌else◌, Bool-cases, inl, inr, le→leb, leb,
}
use native.Mathlib.Nat.{mul-le-mul_right, lt_of_mul-lt-mul_right}
use rs_core.Prelude.Halves.{pow_pos, pow_cut, pow_double}
use rs_core.Outcome.{Outcome, ok, panic, ◌>>=◌, index, index_ok}
use rs_core.Field.{Fr}
use rs_core.Geometry.{zero_roots, zero_roots_from, zero_roots_lem}
use rs_core.Merkle.{padded, pairs, subtree, merkle_root, subtree_split}
use rs_core.Merkle.Shards.{subtree_window, subtree_cut}
use rs_core.Frontier.Batch.{subtree-Agree}
use rs_core.Imt
use rs_core.Imt.{is_empty, build_parent_level}
use rs_core.Imt.Parents.{length-build_parent_level}
use rs_core.Imt.Build.{from_leaves-tree_of}
use rs_core.Imt.Root.{root-tree_of, padded-build_parent_level}
use rs_core.Sharded.Canonical.{
  tabulate, tabulate-agree, get_or-tabulate, length-tabulate, shard, shard_beyond, empty_shard,
  index-zero_roots_from,
}

-- Taking one whole part off a length takes one off the number of parts, rounded up.
rounded : (p c n : ℕ) → 0 < n → c * p < (n - p) + p → suc c * p < n + p
rounded p c n some_part h = elim (Bool-cases (leb p n)) [
  | inl long ↦ ground arith
  | inr short ↦
      let few : c < 1 = lt_of_mul-lt-mul_right p (ground arith) in
      let none : c ≡ 0 = omega arith in omega (arith, ap (λ (k : ℕ). suc k * p) none)
]

module _ {A : Type 0} where
  pub get_or-take :
      (n : ℕ) (xs : List A) (i : ℕ) (z : A) → i < n → get_or (take n xs) i z ≡ get_or xs i z
  get_or-take zero xs i z h = absurd (omega arith)
  get_or-take (suc n) [] i z h = refl
  get_or-take (suc n) (x ∷ xs) zero z h = refl
  get_or-take (suc n) (x ∷ xs) (suc i) z h = get_or-take n xs i z (omega arith)

  pub get_or-drop :
      (n : ℕ) (xs : List A) (i j : ℕ) (z : A) → j ≡ n + i → get_or (drop n xs) i z ≡ get_or xs j z
  get_or-drop zero xs i j z e = let k : j ≡ i = omega arith in rw k
  get_or-drop (suc n) [] i j z e = refl
  get_or-drop (suc n) (x ∷ xs) i zero z e = absurd (omega arith)
  get_or-drop (suc n) (x ∷ xs) i (suc j) z e = get_or-drop n xs i j z (omega arith)

  tabulate_cons : (n : ℕ) (g : ℕ → A) → tabulate (suc n) g ≡ g 0 ∷ tabulate n (λ j. g (suc j))
  unfolding tabulate
  tabulate_cons zero g = refl
  tabulate_cons (suc n) g = ap (λ t. t ++ (g (suc n) ∷ [])) (tabulate_cons n g)

module _ {F : Type 0} ⦃fr : Fr F⦄ where
  -- `leaves.chunks(1 << shard_height)`, each chunk built into a tree. A chunk has at least one
  -- leaf, so the number of leaves is enough fuel.
  pub shard_roots_loop : (fuel : ℕ) → ℕ → List F → Outcome (List F)
  shard_roots_loop fuel sh [] = ok []
  shard_roots_loop zero sh (leaf ∷ leaves) = panic
  shard_roots_loop (suc fuel) sh (leaf ∷ leaves) = do
    t ← Imt.from_leaves sh (take (2 ^ sh) (leaf ∷ leaves))
    root ← Imt.root t
    roots ← shard_roots_loop fuel sh (drop (2 ^ sh) (leaf ∷ leaves))
    ok (root ∷ roots)

  unfoldable pub shard_roots : List F → ℕ → Outcome (List F)
  shard_roots leaves sh = shard_roots_loop (length leaves) sh leaves

  -- One round of `cap_levels`: pairs, the last one filled up with `z[h]`.
  unfoldable pub next_level : List F → F → List F
  next_level [] z = []
  next_level (left ∷ []) z = fr.poseidon left z ∷ []
  next_level (left ∷ right ∷ level) z = fr.poseidon left right ∷ next_level level z

  unfoldable pub cap_levels : (rounds : ℕ) → List F → List F → ℕ → Outcome (List (List F))
  cap_levels zero level z h = ok (level ∷ [])
  cap_levels (suc rounds) level z h = do
    fill ← index z h
    levels ← cap_levels rounds (next_level level fill) z (h + 1)
    ok (level ∷ levels)

  pub sharded_root : List F → ℕ → ℕ → Outcome F
  unfolding shard_roots
  sharded_root leaves depth sh = do
    let z = zero_roots depth
    roots ← shard_roots leaves sh
    levels ← cap_levels (depth - sh) roots z sh
    top ← index levels (depth - sh)
    if is_empty top then index z depth else index top 0

  pub next_level_lem : (level : List F) (z : F) → next_level level z ≡ build_parent_level level z
  unfolding next_level build_parent_level
  next_level_lem [] z = refl
  next_level_lem (a ∷ []) z = refl
  next_level_lem (a ∷ b ∷ level) z = ap (λ t. fr.poseidon a b ∷ t) (next_level_lem level z)

  pub empty_shard-suc : (h : ℕ) → fr.poseidon (empty_shard h) (empty_shard h) ≡ empty_shard (suc h)
  unfolding empty_shard
  empty_shard-suc h = sym (
      subtree_split h (λ _. fr.zero) 0
      ∙ ap₂ fr.poseidon (subtree_window h (λ _. fr.zero) (2 * 0))
          (subtree_window h (λ _. fr.zero) (2 * 0 + 1)))

  pub index_zero : (d h : ℕ) → h ≤ d → index (zero_roots {F = F} d) h ≡ ok (empty_shard h)
  unfolding empty_shard
  index_zero d h k =
      rw (zero_roots_lem d)
        (index_ok (zero_roots_from d fr.zero) h (index-zero_roots_from d h fr.zero k))

  -- The top level over some roots that fit is the Merkle root of them.
  pub cap_levels_top :
      (rounds d h : ℕ) (level : List F)
      → h + rounds ≡ d
      → 0 < length level
      → length level ≤ 2 ^ rounds
      → (levels : List (List F)) × (cap_levels rounds level (zero_roots d) h ≡ ok levels)
        × (get_elem? levels rounds ≡ some (subtree rounds (padded level (empty_shard h)) 0 ∷ []))
  unfolding cap_levels subtree
  cap_levels_top zero d h [] e some_roots k = absurd (omega arith)
  cap_levels_top zero d h (a ∷ []) e some_roots k = ((a ∷ []) ∷ [], refl, refl)
  cap_levels_top zero d h (a ∷ b ∷ level) e some_roots k = absurd (omega arith)
  cap_levels_top (suc rounds) d h level e some_roots k =
      let up = build_parent_level level (empty_shard h) in
      let next : empty_shard (h + 1) ≡ fr.poseidon (empty_shard h) (empty_shard h) =
        let plus : h + 1 ≡ suc h = omega arith in ap empty_shard plus ∙ sym (empty_shard-suc h) in
      let up_nodes : padded up (empty_shard (h + 1)) ≡ pairs (padded level (empty_shard h)) =
        ap (λ z. padded up z) next ∙ padded-build_parent_level level (empty_shard h) in
      let (levels, run, top) =
        cap_levels_top rounds d (h + 1) up (omega arith)
          (omega (arith, length-build_parent_level level (empty_shard h)))
          (omega (arith, length-build_parent_level level (empty_shard h), pow_double rounds)) in
      (
        level ∷ levels,
        rw (index_zero d h (omega arith), next_level_lem level (empty_shard h), run),
        top ∙ ap (λ f. some (subtree rounds f 0 ∷ [])) up_nodes,
      )

  first_shard :
      (sh : ℕ) (leaves : List F) → merkle_root sh fr.zero (take (2 ^ sh) leaves) ≡ shard sh leaves 0
  unfolding merkle_root
  first_shard sh leaves =
      subtree-Agree sh (padded (take (2 ^ sh) leaves) fr.zero) (padded leaves fr.zero) 0 (2 ^ sh)
        (λ i h. get_or-take (2 ^ sh) leaves i fr.zero h) (omega arith)

  later_shard :
      (sh : ℕ) (leaves : List F) (j : ℕ)
      → shard sh (drop (2 ^ sh) leaves) j ≡ shard sh leaves (suc j)
  later_shard sh leaves j =
      subtree_window sh (padded (drop (2 ^ sh) leaves) fr.zero) j
      ∙ ap (λ f. subtree sh f 0)
          (fun_ext (λ i.
            get_or-drop (2 ^ sh) leaves (j * 2 ^ sh + i) (suc j * 2 ^ sh + i) fr.zero
              (omega arith)))
      ∙ sym (subtree_window sh (padded leaves fr.zero) (suc j))

  -- Every chunk gives the root of its shard, and the chunks are as many as it takes.
  pub shard_roots_loop_lem :
      (fuel sh : ℕ) (leaves : List F)
      → sh < 64
      → length leaves ≤ fuel
      → (c : ℕ) × (shard_roots_loop fuel sh leaves ≡ ok (tabulate c (shard sh leaves)))
        × (length leaves ≤ c * 2 ^ sh)
        × (c * 2 ^ sh < length leaves + 2 ^ sh)
  unfolding shard_roots_loop
  shard_roots_loop_lem fuel sh [] c h =
      (0, (unfold tabulate in refl), omega arith, omega (arith, pow_pos sh))
  shard_roots_loop_lem zero sh (leaf ∷ leaves) c h = absurd (omega arith)
  shard_roots_loop_lem (suc fuel) sh (leaf ∷ leaves) c h =
      let all = leaf ∷ leaves in
      let (count, run, low, high) =
        shard_roots_loop_lem fuel sh (drop (2 ^ sh) all) c
          (omega (arith, length-drop (2 ^ sh) all, pow_pos sh)) in
      (
        suc count,
        rw (
          from_leaves-tree_of sh (take (2 ^ sh) all) c,
          le→leb (length (take (2 ^ sh) all)) (2 ^ sh) (omega (arith, length-take (2 ^ sh) all)),
          root-tree_of sh fr.zero (take (2 ^ sh) all),
          run,
          first_shard sh all,
          tabulate_cons count (shard sh all),
          tabulate-agree count (shard sh (drop (2 ^ sh) all)) (λ j. shard sh all (suc j))
              (λ j _. later_shard sh all j),
        ),
        omega (arith, length-drop (2 ^ sh) all),
        rounded (2 ^ sh) count (length all) (omega arith) (omega (arith, length-drop (2 ^ sh) all)),
      )

  pub padded_shards :
      (sh c : ℕ) (leaves : List F)
      → length leaves ≤ c * 2 ^ sh
      → padded (tabulate c (shard sh leaves)) (empty_shard sh) ≡ shard sh leaves
  padded_shards sh c leaves h = fun_ext (λ j.
      get_or-tabulate c (shard sh leaves) j (empty_shard sh) ∙ elim (Bool-cases (ltb j c)) [
        | inl b ↦ rw b
        | inr b ↦ rw b (
            sym (
              shard_beyond sh j leaves
                (omega (arith, h, mul-le-mul_right {m = c} {n = j} (2 ^ sh) (ground arith)))))
      ])

  pub cap_levels_empty :
      (rounds d h : ℕ)
      → h + rounds ≡ d
      → (levels : List (List F)) × (cap_levels rounds [] (zero_roots d) h ≡ ok levels)
        × (get_elem? levels rounds ≡ some [])
  unfolding cap_levels next_level
  cap_levels_empty zero d h e = ([] ∷ [], refl, refl)
  cap_levels_empty (suc rounds) d h e =
      let (levels, run, top) = cap_levels_empty rounds d (h + 1) (omega arith) in
      ([] ∷ levels, rw (index_zero d h (omega arith), run), top)

  pub root_of_shards :
      (d sh c : ℕ) (leaves : List F)
      → sh < d
      → length leaves ≤ 2 ^ d
      → length leaves ≤ c * 2 ^ sh
      → c * 2 ^ sh < length leaves + 2 ^ sh
      → 0 < c
      → (levels : List (List F)) × (cap_levels
            (d - sh)
            (tabulate c (shard sh leaves))
            (zero_roots d)
            sh
          ≡ ok levels)
        × (get_elem? levels (d - sh) ≡ some (merkle_root d fr.zero leaves ∷ []))
  unfolding merkle_root
  root_of_shards d sh c leaves cut room low high some_shards =
      let size = length-tabulate c (shard sh leaves) in
      let few : c < 2 ^ (d - sh) + 1 =
        lt_of_mul-lt-mul_right (2 ^ sh) (omega (arith, pow_cut d (d - sh) sh (omega arith))) in
      let (levels, run, top) =
        cap_levels_top (d - sh) d sh (tabulate c (shard sh leaves)) (omega arith)
          (omega (arith, size)) (omega (arith, size)) in
      (
        levels,
        run,
        top
            ∙ ap (λ f. some (subtree (d - sh) f 0 ∷ [])) (padded_shards sh c leaves low)
            ∙ ap (λ r. some (r ∷ []))
                (sym (subtree_cut d sh (d - sh) (padded leaves fr.zero) (omega arith))),
      )

  -- At a depth below 64 that the shard height is below, and for leaves that fit, `sharded_root` is
  -- the Merkle root of the leaves.
  pub sharded_root-merkle_root :
      (d sh : ℕ) (leaves : List F)
      → d < 64
      → sh < d
      → length leaves ≤ 2 ^ d
      → sharded_root leaves d sh ≡ ok (merkle_root d fr.zero leaves)
  unfolding sharded_root shard_roots shard_roots_loop merkle_root is_empty
  sharded_root-merkle_root d sh [] c cut room =
      let (levels, run, top) = cap_levels_empty (d - sh) d sh (omega arith) in
      rw (run, index_ok levels (d - sh) top, index_zero d d (omega arith))
        (unfold empty_shard in refl)
  sharded_root-merkle_root d sh (leaf ∷ leaves) c cut room =
      let all = leaf ∷ leaves in
      let (count, roots, low, high) =
        shard_roots_loop_lem (length all) sh all (omega arith) (omega arith) in
      let some_shards : 0 < count = lt_of_mul-lt-mul_right (2 ^ sh) {m = 0} (omega arith) in
      let (levels, run, top) = root_of_shards d sh count all cut room low high some_shards in
      rw (roots, run, index_ok levels (d - sh) top)
