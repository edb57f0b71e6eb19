-- ===== src/Frontier/Append.antt =====
-- Appending one leaf: `NotesFrontier::append` keeps the frontier of the leaves, and emits a shard
-- root exactly when the leaf fills a shard.
use rs_core.Prelude.{
  ℕ, zero, suc, ◌+◌, ◌-◌, ◌*◌, ◌/◌, ◌%◌, ◌^◌, ◌≤◌, ◌<◌, ◌≡◌, refl, ap, ap₂, ◌∙◌, List, [], ◌∷◌,
  ◌++◌, Option, none, some, true, false, arith, length, length-append, get_or-append_last, ltb,
  ◌==◌, if◌then◌else◌, Bool-cases, inl, inr, ltb→lt, eq→==, neq→==,
}
use rs_core.Prelude.Halves.{half-lt-pow, half-div_pow, even_multiple, odd_multiple}
use rs_core.Outcome.{ok, err, ◌>>=◌, tree_full}
use rs_core.Field.{Fr}
use rs_core.Geometry.{tree_capacity_lem}
use rs_core.Merkle.{padded, pairs, subtree}
use rs_core.Frontier.{CompletedShard, append_loop, append}
use rs_core.Frontier.Canonical.{
  Agree, Agree-pairs, slots_of, slots_of-Agree, frontier_of, padded-append,
}
use native.Mathlib.Numerals.{add-one}

module _ {F : Type 0} ⦃fr : Fr F⦄ where
  node_odd :
      (g : ℕ → F) (n : ℕ) → (n % 2 == 0) ≡ false → fr.poseidon (g (n - 1)) (g n) ≡ pairs g (n / 2)
  node_odd g n odd = ap₂ (λ i j. fr.poseidon (g i) (g j)) (ground arith) (ground arith)

  -- A new node at an even place ends the loop.
  append_loop_even :
      (k sh li level n : ℕ) (f g : ℕ → F) (shard : Option (CompletedShard F))
      → Agree n f g
      → (n % 2 == 0) ≡ true
      → append_loop (suc k) (slots_of (suc k) f n) sh li level n (g n) shard
        ≡ ok (slots_of (suc k) g (n + 1), shard)
  unfolding append_loop slots_of
  append_loop_even k sh li level n f g shard h even =
      rw (even, append_loop)
        (rw (slots_of-Agree k (pairs f) (pairs g) (n / 2) (Agree-pairs n f g h)) (
          rw (eq→== ((n + 1) % 2) 1 (ground arith)) (
            ap₂ (λ i j. ok (some (g i) ∷ slots_of k (pairs g) j, shard)) (omega arith)
              (ground arith))))

  -- At an odd place the node and its left neighbour make the node for the level above.
  append_loop_odd :
      (k sh li level n : ℕ) (f g : ℕ → F) (shard : Option (CompletedShard F))
      → Agree n f g
      → (n % 2 == 0) ≡ false
      → append_loop (suc k) (slots_of (suc k) f n) sh li level n (g n) shard ≡ (
          append_loop k (slots_of k (pairs f) (n / 2)) sh li (level + 1) (n / 2) (pairs g (n / 2)) (
            if level + 1 == sh
            then some (record { shard_index = li / 2 ^ sh; root = pairs g (n / 2) })
            else shard)
          >>= λ r. ok (none ∷ r.0, r.1))
  unfolding append_loop slots_of
  append_loop_odd k sh li level n f g shard h odd =
      rw (odd, append_loop)
        (rw (eq→== (n % 2) 1 (ground arith), h (n - 1) (ground arith)) (rw (node_odd g n odd)))

  -- In the slots of one more leaf, the lowest is empty if the leaf fell on an odd place.
  slots_of_odd :
      (k n : ℕ) (g : ℕ → F)
      → (n % 2 == 0) ≡ false
      → slots_of (suc k) g (n + 1) ≡ none ∷ slots_of k (pairs g) (n / 2 + 1)
  unfolding slots_of
  slots_of_odd k n g odd =
      rw (neq→== ((n + 1) % 2) 1 (ground arith))
        (ap (λ j. none ∷ slots_of k (pairs g) j) (ground arith))

  -- Above the shard's height the loop emits nothing more.
  append_loop_above :
      (d sh li level n : ℕ) (f g : ℕ → F) (shard : Option (CompletedShard F))
      → sh ≤ level
      → Agree n f g
      → n < 2 ^ d
      → append_loop (suc d) (slots_of (suc d) f n) sh li level n (g n) shard
        ≡ ok (slots_of (suc d) g (n + 1), shard)
  append_loop_above zero sh li level zero f g shard s h b =
      append_loop_even zero sh li level 0 f g shard h refl
  append_loop_above zero sh li level (suc n) f g shard s h b = absurd (omega arith)
  append_loop_above (suc d) sh li level n f g shard s h b = elim (Bool-cases (n % 2 == 0)) [
    | inl even ↦ append_loop_even (suc d) sh li level n f g shard h even
    | inr odd ↦
        append_loop_odd (suc d) sh li level n f g shard h odd
        ∙ rw (neq→== (level + 1) sh (omega arith)) (
            rw
              (append_loop_above d sh li (level + 1) (n / 2) (pairs f) (pairs g) shard (omega arith)
                (Agree-pairs n f g h) (half-lt-pow d n b))
              (rw (slots_of_odd (suc d) n g odd)))
  ]

  -- What one append reports of the shard of height `r` that ends at the new leaf, `n`.
  abbrev pub filled : ℕ → ℕ → ℕ → (ℕ → F) → Option (CompletedShard F)
  filled r n shard_index g =
      if (n + 1) % 2 ^ r == 0
      then some (record { shard_index = shard_index; root = subtree r g (n / 2 ^ r) })
      else none

  filled_even : (r n i : ℕ) (g : ℕ → F) → (n % 2 == 0) ≡ true → filled (suc r) n i g ≡ none
  filled_even r n i g even = rw (
      neq→== ((n + 1) % 2 ^ suc r) 0
        (λ e. odd_multiple (n / 2) r (ap (λ (m : ℕ). m % 2 ^ suc r) (ground arith) ∙ e)))

  filled_odd :
      (r n i : ℕ) (g : ℕ → F)
      → (n % 2 == 0) ≡ false
      → filled (suc r) n i g ≡ filled r (n / 2) i (pairs g)
  unfolding subtree
  filled_odd r n i g odd =
      let multiple : (n + 1) % 2 ^ suc r ≡ 2 * ((n / 2 + 1) % 2 ^ r) =
        ap (λ (m : ℕ). m % 2 ^ suc r) (ground arith) ∙ even_multiple (n / 2 + 1) r in
      rw (multiple, half-div_pow n r) (ground arith)

  filled_zero :
      (n i : ℕ) (g : ℕ → F) → filled 0 n i g ≡ some (record { shard_index = i; root = g n })
  unfolding subtree
  filled_zero n i g =
      rw (eq→== ((n + 1) % 2 ^ 0) 0 (omega arith))
        (ap (λ j. some (record { shard_index = i; root = g j })) (omega arith))

  -- Below it, the loop emits the shard exactly if the leaf fills it.
  append_loop_below :
      (d r sh li level n : ℕ) (f g : ℕ → F)
      → sh ≡ level + suc r
      → Agree n f g
      → n < 2 ^ d
      → append_loop (suc d) (slots_of (suc d) f n) sh li level n (g n) none
        ≡ ok (slots_of (suc d) g (n + 1), filled (suc r) n (li / 2 ^ sh) g)
  append_loop_below zero r sh li level zero f g s h b =
      append_loop_even zero sh li level 0 f g none h refl
      ∙ rw (filled_even r 0 (li / 2 ^ sh) g refl)
  append_loop_below zero r sh li level (suc n) f g s h b = absurd (omega arith)
  append_loop_below (suc d) zero sh li level n f g s h b = elim (Bool-cases (n % 2 == 0)) [
    | inl even ↦
        append_loop_even (suc d) sh li level n f g none h even
        ∙ rw (filled_even 0 n (li / 2 ^ sh) g even)
    | inr odd ↦
        append_loop_odd (suc d) sh li level n f g none h odd
        ∙ rw
            (
              filled_odd 0 n (li / 2 ^ sh) g odd,
              slots_of_odd (suc d) n g odd,
              filled_zero,
              eq→== (level + 1) sh (omega arith),
            )
            (rw (
              append_loop_above d sh li (level + 1) (n / 2) (pairs f) (pairs g)
                (some (record { shard_index = li / 2 ^ sh; root = pairs g (n / 2) })) (omega arith)
                (Agree-pairs n f g h) (half-lt-pow d n b)))
  ]
  append_loop_below (suc d) (suc r) sh li level n f g s h b = elim (Bool-cases (n % 2 == 0)) [
    | inl even ↦
        append_loop_even (suc d) sh li level n f g none h even
        ∙ rw (filled_even (suc r) n (li / 2 ^ sh) g even)
    | inr odd ↦
        append_loop_odd (suc d) sh li level n f g none h odd
        ∙ rw
            (
              filled_odd (suc r) n (li / 2 ^ sh) g odd,
              slots_of_odd (suc d) n g odd,
              neq→== (level + 1) sh (omega arith),
            )
            (rw (
              append_loop_below d r sh li (level + 1) (n / 2) (pairs f) (pairs g) (omega arith)
                (Agree-pairs n f g h) (half-lt-pow d n b)))
  ]

  -- The leaves with a new one behind them.
  abbrev pub with_leaf : List F → F → ℕ → F
  with_leaf leaves leaf = padded (leaves ++ (leaf ∷ [])) fr.zero

  append_loop_new :
      (d sh : ℕ) (leaves : List F) (leaf : F)
      → length leaves < 2 ^ d
      → append_loop
          (d + 1)
          (slots_of (d + 1) (padded leaves fr.zero) (length leaves))
          (suc sh)
          (length leaves)
          0
          (length leaves)
          leaf
          none
        ≡ ok (
          slots_of (d + 1) (with_leaf leaves leaf) (length leaves + 1),
          filled (suc sh) (length leaves) (length leaves / 2 ^ suc sh) (with_leaf leaves leaf),
        )
  append_loop_new d sh leaves leaf b = rw (add-one d) (
      rw (get_or-append_last leaves leaf [] fr.zero) at (
        append_loop_below d sh (suc sh) (length leaves) 0 (length leaves) (padded leaves fr.zero)
          (with_leaf leaves leaf) (omega arith) (padded-append leaves (leaf ∷ []) fr.zero) b))

  -- At a depth below 64 and a positive shard height, `append` to the frontier of a list of leaves
  -- fails on a full tree alone. Otherwise it gives the frontier of the leaves with the new one,
  -- the new leaf's index, and, exactly when the leaf is a shard's last one, that shard's number
  -- and root.
  pub append-frontier_of :
      (d sh : ℕ) (leaves : List F) (leaf : F)
      → d < 64
      → 0 < sh
      → append (frontier_of d sh leaves) leaf ≡ (
          if ltb (length leaves) (2 ^ d)
          then ok (
            frontier_of d sh (leaves ++ (leaf ∷ [])),
            record {
              leaf_index = length leaves;
              completed_shard =
                  filled sh (length leaves) (length leaves / 2 ^ sh) (with_leaf leaves leaf);
            },
          )
          else err (tree_full d))
  unfolding append frontier_of
  append-frontier_of d zero leaves leaf c p = absurd (omega arith)
  append-frontier_of d (suc sh) leaves leaf c p =
      rw (tree_capacity_lem d c) (elim (Bool-cases (ltb (length leaves) (2 ^ d))) [
        | inl room ↦
            rw (room, append_loop_new d sh leaves leaf (ltb→lt _ _ room))
              (rw (length-append leaves (leaf ∷ [])))
        | inr full ↦ rw full
      ])
