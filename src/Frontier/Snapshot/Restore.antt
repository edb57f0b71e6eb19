-- ===== src/Frontier/Snapshot/Restore.antt =====
-- A frontier that is stored as a snapshot and restored goes on as if it had never been stored.
use rs_core.Prelude.{
  ℕ, zero, suc, ◌+◌, ◌-◌, ◌/◌, ◌%◌, ◌^◌, ◌≤◌, ◌<◌, ◌≡◌, refl, sym, ap, List, [], ◌∷◌, ◌++◌, none,
  some, Bool, true, false, arith, length, length-append, ◌==◌, if◌then◌else◌, lt→ltb,
}
use rs_core.Outcome.{ok, ◌>>=◌}
use rs_core.Field.{Fr}
use rs_core.Wire.{FrInt, fr_to_be_32, fr_from_be_32_checked-fr_to_be_32}
use rs_core.Geometry.{zero_roots_lem}
use rs_core.Merkle.{padded, pairs, merkle_root}
use rs_core.Frontier.Canonical.{slots_of, frontier_of}
use rs_core.Frontier.Append.{append-frontier_of}
use rs_core.Frontier.Root.{root-frontier_of}
use rs_core.Frontier.Snapshot.{
  encode_snapshot, from_snapshot_bytes, append_be_32, root_be_32, is_some,
}
use rs_core.Frontier.Snapshot.Slots.{Matches}
use rs_core.Frontier.Snapshot.Laws.{from_snapshot_bytes-encode_snapshot}
use rs_core.Frontier.Snapshot.Body.{IsFrontier}

is_some_if : {A : Type 0} (b : Bool) (a : A) → is_some (if b then some a else none) ≡ b
is_some_if true a = refl
is_some_if false a = refl

module _ {F : Type 0} ⦃fr : Fr F⦄ where
  length-slots_of : (k : ℕ) (f : ℕ → F) (n : ℕ) → length (slots_of k f n) ≡ k
  unfolding slots_of
  length-slots_of zero f n = refl
  length-slots_of (suc k) f n = ap suc (length-slots_of k (pairs f) (n / 2))

  slots_of-Matches : (k : ℕ) (f : ℕ → F) (n : ℕ) → Matches (slots_of k f n) n
  unfolding slots_of
  slots_of-Matches zero f n = tt
  slots_of-Matches (suc k) f n =
      (is_some_if (n % 2 == 1) (f (n - 1)), slots_of-Matches k (pairs f) (n / 2))

  -- The frontier of a list of leaves that fits the tree.
  pub frontier_of-IsFrontier :
      (d sh : ℕ) (leaves : List F)
      → 0 < sh
      → sh < d
      → d < 64
      → length leaves ≤ 2 ^ d
      → IsFrontier (frontier_of d sh leaves)
  unfolding frontier_of
  frontier_of-IsFrontier d sh leaves p q c h = record {
    positive = p;
    below = q;
    fits = c;
    size = refl;
    zeros = sym (zero_roots_lem d);
    room = h;
    slots = length-slots_of (d + 1) (padded leaves fr.zero) (length leaves);
    matching = slots_of-Matches (d + 1) (padded leaves fr.zero) (length leaves);
  }

module _ {F : Type 0} ⦃fr : Fr F⦄ ⦃int : FrInt F⦄ where
  -- Storing the frontier of a list of leaves, restoring it, appending one more leaf by its bytes
  -- and reading the root's bytes gives the bytes of the Merkle root of all the leaves, while the
  -- tree is not full, its depth is below 64 and the shard height positive and below the depth.
  pub restored-append_be_32-root_be_32 :
      (d sh : ℕ) (leaves : List F) (leaf : F)
      → 0 < sh
      → sh < d
      → d < 64
      → length leaves < 2 ^ d
      → (do
        t ← from_snapshot_bytes {F = F} (encode_snapshot (frontier_of d sh leaves))
        (t', _) ← append_be_32 t (fr_to_be_32 leaf)
        root_be_32 t')
        ≡ ok (fr_to_be_32 (merkle_root d fr.zero (leaves ++ (leaf ∷ []))))
  unfolding append_be_32 root_be_32
  restored-append_be_32-root_be_32 d sh leaves leaf p q c h = rw (
    from_snapshot_bytes-encode_snapshot (frontier_of d sh leaves)
        (frontier_of-IsFrontier d sh leaves p q c (omega arith)),
    fr_from_be_32_checked-fr_to_be_32 leaf,
    append-frontier_of d sh leaves leaf c p,
    lt→ltb (length leaves) (2 ^ d) h,
    root-frontier_of d sh (leaves ++ (leaf ∷ [])) c
        (omega (arith, length-append leaves (leaf ∷ []))),
  )
