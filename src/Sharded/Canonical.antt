-- ===== src/Sharded/Canonical.antt =====
-- The public state of a sharded tree: what the leaves of the completed shards and those of the live
-- shard determine.
use rs_core.Prelude.{
  ℕ, zero, suc, ◌+◌, ◌-◌, ◌*◌, ◌^◌, ◌≤◌, ◌<◌, ◌≡◌, refl, sym, ap, ◌∙◌, List, [], ◌∷◌, ◌++◌, arith,
  length, get_or, length-append, ltb, ◌==◌, if◌then◌else◌, set, Bool-cases, inl, inr,
  get_or-append_left, get_or_beyond, get_elem?, some, lt→ltb, fun_ext,
}
use native.Mathlib.Nat.{mul-le-mul_right}
use rs_core.Field.{Fr}
use rs_core.Geometry.{zero_roots_from}
use rs_core.Merkle.{padded, subtree, merkle_root}
use rs_core.Merkle.Shards.{get_or-append_right, subtree_window, padded_window}
use rs_core.Imt.Canonical.{tree_of}
use rs_core.Frontier.Canonical.{padded-append}
use rs_core.Frontier.Batch.{subtree-Agree}
use rs_core.Sharded.{ShardedNotesTree, OwnedNoteWitness}

-- `g 0, …, g (n - 1)`
unfoldable pub tabulate : {A : Type 0} → ℕ → (ℕ → A) → List A
tabulate zero g = []
tabulate (suc n) g = tabulate n g ++ (g n ∷ [])

module _ {A : Type 0} where
  pub length-tabulate : (n : ℕ) (g : ℕ → A) → length (tabulate n g) ≡ n
  unfolding tabulate
  length-tabulate zero g = refl
  length-tabulate (suc n) g =
      omega (arith, length-append (tabulate n g) (g n ∷ []), length-tabulate n g)

  pub tabulate-agree :
      (n : ℕ) (g h : ℕ → A) → ((i : ℕ) → i < n → g i ≡ h i) → tabulate n g ≡ tabulate n h
  unfolding tabulate
  tabulate-agree zero g h e = refl
  tabulate-agree (suc n) g h e =
      rw (tabulate-agree n g h (λ i k. e i (omega arith)), e n (omega arith))

  pub get_or-tabulate :
      (n : ℕ) (g : ℕ → A) (i : ℕ) (z : A) → get_or (tabulate n g) i z ≡ (if ltb i n then g i else z)
  unfolding tabulate
  get_or-tabulate zero g i z = ground arith
  get_or-tabulate (suc n) g i z = elim (Bool-cases (ltb i n)) [
    | inl b ↦
        get_or-append_left (tabulate n g) (g n ∷ []) i z (ground (arith, length-tabulate n g))
        ∙ get_or-tabulate n g i z
        ∙ ground arith
    | inr b ↦
        get_or-append_right (tabulate n g) (g n ∷ []) (i - n) i z
          (ground (arith, length-tabulate n g))
        ∙ elim (Bool-cases (i == n)) [
          | inl e ↦
              let k : i ≡ n = ground arith in
              let o : n - n ≡ 0 = omega arith in rw (k, o) (rw (lt→ltb n (suc n) (omega arith)))
          | inr e ↦ get_or_beyond (g n ∷ []) (i - n) z (ground arith) ∙ ground arith
        ]
  ]

  pub set-last : (xs : List A) (a b : A) → set (xs ++ (a ∷ [])) (length xs) b ≡ xs ++ (b ∷ [])
  set-last [] a b = refl
  set-last (x ∷ xs) a b = ap (λ t. x ∷ t) (set-last xs a b)

module _ {F : Type 0} ⦃fr : Fr F⦄ where
  -- The root of the shard with number `j`.
  abbrev pub shard : ℕ → List F → ℕ → F
  shard sh leaves j = subtree sh (padded leaves fr.zero) j

  -- The root of an empty shard.
  unfoldable pub empty_shard : ℕ → F
  empty_shard sh = subtree sh (λ _. fr.zero) 0

  pub index-zero_roots_from :
      (d sh : ℕ) (z : F)
      → sh ≤ d
      → get_elem? (zero_roots_from d z) sh ≡ some (subtree sh (λ _. z) 0)
  unfolding zero_roots_from subtree
  index-zero_roots_from zero zero z h = refl
  index-zero_roots_from (suc d) zero z h = refl
  index-zero_roots_from zero (suc sh) z h = absurd (omega arith)
  index-zero_roots_from (suc d) (suc sh) z h =
      index-zero_roots_from d sh (fr.poseidon z z) (omega arith)

  -- The live shard is the one behind the completed shards.
  pub shard_live :
      (sh q : ℕ) (done live : List F)
      → length done ≡ q * 2 ^ sh
      → shard sh (done ++ live) q ≡ merkle_root sh fr.zero live
  unfolding merkle_root
  shard_live sh q done live h =
      subtree_window sh (padded (done ++ live) fr.zero) q
      ∙ ap (λ g. subtree sh g 0) (rw (← h) (padded_window done live fr.zero))

  pub shard_beyond :
      (sh j : ℕ) (leaves : List F) → length leaves ≤ j * 2 ^ sh → shard sh leaves j ≡ empty_shard sh
  unfolding empty_shard
  shard_beyond sh j leaves h =
      subtree_window sh (padded leaves fr.zero) j
      ∙ ap (λ g. subtree sh g 0)
          (fun_ext (λ i. get_or_beyond leaves (j * 2 ^ sh + i) fr.zero (omega arith)))

  -- A completed shard keeps its root.
  pub shard_done :
      (sh q j : ℕ) (done live : List F)
      → length done ≡ q * 2 ^ sh
      → j < q
      → shard sh (done ++ live) j ≡ shard sh done j
  shard_done sh q j done live h k = sym (
      subtree-Agree sh (padded done fr.zero) (padded (done ++ live) fr.zero) j (length done)
        (padded-append done live fr.zero)
        (omega (arith, mul-le-mul_right {m = j + 1} {n = q} (2 ^ sh) (omega arith))))

  -- The number of leaves of the cap: the completed shards, and the live one if it has leaves.
  abbrev pub cap_count : ℕ → List F → ℕ
  cap_count q [] = q
  cap_count q (leaf ∷ live) = suc q

  cap_count_lem :
      (sh q : ℕ) (live : List F)
      → length live ≤ 2 ^ sh
      → q * 2 ^ sh + length live ≤ cap_count q live * 2 ^ sh
  cap_count_lem sh q [] h = omega arith
  cap_count_lem sh q (leaf ∷ live) h = omega arith

  unfoldable pub sharded_of :
      ℕ
      → ℕ
      → ℕ
      → List F
      → List F
      → List (F × OwnedNoteWitness F)
      → List (ℕ × F)
      → List F
      → ShardedNotesTree F
  sharded_of d sh q done live notes places dirty = record {
    depth = d;
    shard_height = sh;
    shard_size = 2 ^ sh;
    cap_depth = d - sh;
    completed_roots = tabulate q (shard sh done);
    live = tree_of sh fr.zero live;
    live_leaves = live;
    cap = tree_of (d - sh) (empty_shard sh) (tabulate (cap_count q live) (shard sh (done ++ live)));
    owned_notes = notes;
    owned_leaves = places;
    dirty_owned_notes = dirty;
  }

  -- The leaves of the cap are the roots of all shards.
  pub cap_shards :
      (sh q : ℕ) (done live : List F)
      → length done ≡ q * 2 ^ sh
      → length live ≤ 2 ^ sh
      → padded (tabulate (cap_count q live) (shard sh (done ++ live))) (empty_shard sh)
        ≡ shard sh (done ++ live)
  cap_shards sh q done live h k = fun_ext (λ j.
      get_or-tabulate (cap_count q live) (shard sh (done ++ live)) j (empty_shard sh)
      ∙ elim (Bool-cases (ltb j (cap_count q live))) [
        | inl b ↦ rw b
        | inr b ↦ rw b (
            sym (
              shard_beyond sh j (done ++ live) (
                omega (
                  arith,
                  length-append done live,
                  cap_count_lem sh q live k,
                  mul-le-mul_right {m = cap_count q live} {n = j} (2 ^ sh) (ground arith),
                ))))
      ])
