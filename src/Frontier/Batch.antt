-- ===== src/Frontier/Batch.antt =====
-- Appending a batch: `NotesFrontier::append_many`, and the shard roots that it emits.
use rs_core.Prelude.{
  ℕ, zero, suc, ◌+◌, ◌-◌, ◌*◌, ◌/◌, ◌%◌, ◌^◌, ◌≤◌, ◌<◌, ◌≡◌, ◌≢◌, refl, sym, ap, ◌∙◌, List, [], ◌∷◌,
  ◌++◌, true, false, arith, length, length-append, append_assoc, append-nil, leb, ◌==◌,
  if◌then◌else◌, Bool-cases, inl, inr, lt→ltb, le→ltb, ==→eq,
}
use rs_core.Prelude.Halves.{pow_double, pow_pos}
use rs_core.Outcome.{ok, err, tree_full}
use rs_core.Field.{Fr}
use rs_core.Geometry.{tree_capacity_lem}
use rs_core.Merkle.{padded, pairs, subtree}
use rs_core.Frontier.{CompletedShard, append_many_loop, append_many, push_shard}
use rs_core.Frontier.Canonical.{Agree, Agree-pairs, frontier_of, padded-append}
use rs_core.Frontier.Append.{append-frontier_of, filled, with_leaf}
use native.Mathlib.Nat.{div-add-mod, mod-lt}

div_step_full : (n p : ℕ) → 0 < p → (n + 1) % p ≡ 0 → (n + 1) / p ≡ n / p + 1
div_step_full n p h e = grind (arith, div-add-mod n p, div-add-mod (n + 1) p, mod-lt n {m = p} h)

div_step_same : (n p : ℕ) → 0 < p → (n + 1) % p ≢ 0 → (n + 1) / p ≡ n / p
div_step_same n p h e = grind (arith, div-add-mod n p, div-add-mod (n + 1) p, mod-lt n {m = p} h)

div_mono : (n m p : ℕ) → n ≤ m → n / p ≤ m / p
div_mono n m p h = grind arith

module _ {F : Type 0} ⦃fr : Fr F⦄ where
  -- A subtree reads the leaves of its own span and no others.
  pub subtree-Agree :
      (r : ℕ) (f g : ℕ → F) (i n : ℕ)
      → Agree n f g
      → (i + 1) * 2 ^ r ≤ n
      → subtree r f i ≡ subtree r g i
  unfolding subtree
  subtree-Agree zero f g i n h k = h i (omega arith)
  subtree-Agree (suc r) f g i n h k =
      subtree-Agree r (pairs f) (pairs g) i (n / 2) (Agree-pairs n f g h)
        (omega (arith, ap (λ (p : ℕ). (i + 1) * p) (pow_double r)))

  -- `count` shards of height `sh` from number `i` on, with their roots.
  pub shards_from : ℕ → (ℕ → F) → ℕ → ℕ → List (CompletedShard F)
  shards_from sh f i zero = []
  shards_from sh f i (suc count) =
      record { shard_index = i; root = subtree sh f i } ∷ shards_from sh f (i + 1) count

  -- The shard that a leaf fills keeps its root whatever follows.
  filled_shard :
      (sh : ℕ) (leaves more : List F) (leaf : F)
      → (length leaves + 1) % 2 ^ sh ≡ 0
      → subtree sh (with_leaf leaves leaf) (length leaves / 2 ^ sh)
        ≡ subtree sh (padded (leaves ++ (leaf ∷ more)) fr.zero) (length leaves / 2 ^ sh)
  filled_shard sh leaves more leaf e = rw (← append_assoc leaves (leaf ∷ []) more) (
      subtree-Agree sh (with_leaf leaves leaf) (padded ((leaves ++ (leaf ∷ [])) ++ more) fr.zero)
        (length leaves / 2 ^ sh) (length (leaves ++ (leaf ∷ [])))
        (padded-append (leaves ++ (leaf ∷ [])) more fr.zero)
        (omega (
          arith,
          length-append leaves (leaf ∷ []),
          div-add-mod (length leaves + 1) (2 ^ sh),
          ap (λ (q : ℕ). q * 2 ^ sh) (div_step_full (length leaves) (2 ^ sh) (pow_pos sh) e),
        )))

  abbrev shards_of_rest : List F → F → List F → ℕ → ℕ → List (CompletedShard F)
  shards_of_rest leaves leaf more sh count =
      shards_from sh (padded (leaves ++ (leaf ∷ more)) fr.zero)
        (length (leaves ++ (leaf ∷ [])) / 2 ^ sh) count

  -- The shards of one leaf and of those behind it are the shards of all of them.
  record Step (sh : ℕ) (leaves more : List F) (leaf : F) (count : ℕ) : Type 0 where
    rest : ℕ
    counted :
        (length (leaves ++ (leaf ∷ [])) + length more) / 2 ^ sh
        ≡ length (leaves ++ (leaf ∷ [])) / 2 ^ sh + rest
    emitted :
        push_shard
          (filled sh (length leaves) (length leaves / 2 ^ sh) (with_leaf leaves leaf))
          (shards_of_rest leaves leaf more sh rest)
        ≡ shards_from sh (padded (leaves ++ (leaf ∷ more)) fr.zero) (length leaves / 2 ^ sh) count

  Step-part :
      (sh : ℕ) (leaves more : List F) (leaf : F) (count : ℕ)
      → (length leaves + suc (length more)) / 2 ^ sh ≡ length leaves / 2 ^ sh + count
      → ((length leaves + 1) % 2 ^ sh == 0) ≡ false
      → Step sh leaves more leaf count
  unfolding push_shard
  Step-part sh leaves more leaf count h part =
      let same : length (leaves ++ (leaf ∷ [])) / 2 ^ sh ≡ length leaves / 2 ^ sh =
        ap (λ (k : ℕ). k / 2 ^ sh) (length-append leaves (leaf ∷ []))
        ∙ div_step_same (length leaves) (2 ^ sh) (pow_pos sh) (ground arith) in
      record {
        rest = count;
        counted =
            ap (λ (k : ℕ). k / 2 ^ sh) (omega (arith, length-append leaves (leaf ∷ [])))
            ∙ h
            ∙ ap (λ (q : ℕ). q + count) (sym same);
        emitted = rw (part, same);
      }

  Step-full :
      (sh : ℕ) (leaves more : List F) (leaf : F) (count : ℕ)
      → (length leaves + suc (length more)) / 2 ^ sh ≡ length leaves / 2 ^ sh + count
      → ((length leaves + 1) % 2 ^ sh == 0) ≡ true
      → Step sh leaves more leaf count
  unfolding push_shard shards_from
  Step-full sh leaves more leaf zero h full = absurd (
      omega (
        arith,
        div_step_full (length leaves) (2 ^ sh) (pow_pos sh) (==→eq _ _ full),
        div_mono (length leaves + 1) (length leaves + suc (length more)) (2 ^ sh) (omega arith),
      ))
  Step-full sh leaves more leaf (suc count) h full =
      let next : length (leaves ++ (leaf ∷ [])) / 2 ^ sh ≡ length leaves / 2 ^ sh + 1 =
        ap (λ (k : ℕ). k / 2 ^ sh) (length-append leaves (leaf ∷ []))
        ∙ div_step_full (length leaves) (2 ^ sh) (pow_pos sh) (==→eq _ _ full) in
      record {
        rest = count;
        counted =
            ap (λ (k : ℕ). k / 2 ^ sh) (omega (arith, length-append leaves (leaf ∷ [])))
            ∙ h
            ∙ omega (arith, next);
        emitted = rw (full, next, filled_shard sh leaves more leaf (==→eq _ _ full));
      }

  step :
      (sh : ℕ) (leaves more : List F) (leaf : F) (count : ℕ)
      → (length leaves + suc (length more)) / 2 ^ sh ≡ length leaves / 2 ^ sh + count
      → Step sh leaves more leaf count
  step sh leaves more leaf count h = elim (Bool-cases ((length leaves + 1) % 2 ^ sh == 0)) [
    | inl full ↦ Step-full sh leaves more leaf count h full
    | inr part ↦ Step-part sh leaves more leaf count h part
  ]

  append_many_loop-frontier_of :
      (d sh : ℕ) (leaves more : List F) (count : ℕ)
      → d < 64
      → 0 < sh
      → length leaves + length more ≤ 2 ^ d
      → (length leaves + length more) / 2 ^ sh ≡ length leaves / 2 ^ sh + count
      → append_many_loop (frontier_of d sh leaves) more
        ≡ ok (
          frontier_of d sh (leaves ++ more),
          shards_from sh (padded (leaves ++ more) fr.zero) (length leaves / 2 ^ sh) count,
        )
  unfolding append_many_loop
  append_many_loop-frontier_of d sh leaves [] zero c p room h =
      rw append-nil (unfold shards_from in refl)
  append_many_loop-frontier_of d sh leaves [] (suc count) c p room h =
      absurd (omega (arith, div_mono (length leaves + 0) (length leaves) (2 ^ sh) (omega arith)))
  append_many_loop-frontier_of d sh leaves (leaf ∷ more) count c p room h =
      let s = step sh leaves more leaf count h in
      rw (append-frontier_of d sh leaves leaf c p, lt→ltb (length leaves) (2 ^ d) (omega arith))
        (rw
          (append_many_loop-frontier_of d sh (leaves ++ (leaf ∷ [])) more s.rest c p
            (omega (arith, length-append leaves (leaf ∷ []))) s.counted)
          (rw (append_assoc leaves (leaf ∷ []) more)
            (ap (λ t. ok (frontier_of d sh (leaves ++ (leaf ∷ more)), t)) s.emitted)))

  -- At a depth below 64, a positive shard height and on the frontier of leaves that fit,
  -- `append_many` appends all leaves or none. It emits each shard that the batch completes, in
  -- order, with its root in the tree over all leaves.
  pub append_many-frontier_of :
      (d sh : ℕ) (leaves more : List F)
      → d < 64
      → 0 < sh
      → length leaves ≤ 2 ^ d
      → append_many (frontier_of d sh leaves) more ≡ (
          if leb (length leaves + length more) (2 ^ d)
          then ok (
            frontier_of d sh (leaves ++ more),
            shards_from sh
                (padded (leaves ++ more) fr.zero)
                (length leaves / 2 ^ sh)
                ((length leaves + length more) / 2 ^ sh - length leaves / 2 ^ sh),
          )
          else err (tree_full d))
  unfolding append_many frontier_of
  append_many-frontier_of d sh leaves more c p h =
      rw (tree_capacity_lem d c) (elim (Bool-cases (leb (length leaves + length more) (2 ^ d))) [
        | inl room ↦
            rw (room, le→ltb (2 ^ d - length leaves) (length more) (ground arith))
              (append_many_loop-frontier_of d sh leaves more _ c p (ground arith) (
                omega (
                  arith,
                  div_mono (length leaves) (length leaves + length more) (2 ^ sh) (omega arith),
                )))
        | inr full ↦ rw (full, lt→ltb (2 ^ d - length leaves) (length more) (ground arith))
      ])
