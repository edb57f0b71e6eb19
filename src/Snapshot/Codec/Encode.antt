-- ===== src/Snapshot/Codec/Encode.antt =====
-- What `encode` writes, and when it does.
use rs_core.Prelude.{
  ℕ, ◌+◌, ◌*◌, ◌^◌, ◌<◌, ◌≡◌, sym, ap, ap₂, ◌∙◌, List, ◌∷◌, ◌++◌, false, not, ◌||◌, arith, length,
  leb, ◌==◌, append_assoc,
}
use rs_core.Outcome.{
  Outcome, ok, ensure-ok, ok_eq, >>=-ok, depth_too_wide, shard_height_too_wide, too_many_completed,
  too_many_live, too_many_owned, size_overflow,
}
use rs_core.Assoc.{All}
use rs_core.Bytes.{be_bytes}
use rs_core.Wire.{FrInt}
use rs_core.Snapshot.{append_fields, append_fields_lem, fields_bytes}
use rs_core.Snapshot.Codec.{
  ShardedTreeSnapshot, snapshot_magic, fit, siblings_count, byte_capacity, append_owned, encode,
}
use rs_core.Snapshot.Codec.Written.{
  fit_lem, fit_ok, NoteFits, notes_bytes, append_owned_lem, append_owned_ok,
}
use rs_core.Snapshot.Codec.Layout.{
  IsSnapshot, false_of_not, unit_eq, body_bytes, snapshot_bytes, length-body_bytes,
}

module _ {F : Type 0} ⦃int : FrInt F⦄ where
  -- What `encode` appends to a header of these numbers.
  abbrev write : ShardedTreeSnapshot F → ℕ → ℕ → ℕ → ℕ → ℕ → Outcome (List ℕ)
  write s d sh a b c =
      append_owned s.shard_height
        (append_fields
          (append_fields
            (snapshot_magic ++ (1 ∷ d ∷ sh ∷ 0 ∷ (be_bytes 4 a ++ (be_bytes 4 b ++ be_bytes 4 c))))
            s.completed_roots)
          s.live_leaves)
        s.owned_notes

  write_same :
      (s : ShardedTreeSnapshot F) (d sh a b c : ℕ)
      → d ≡ s.depth
      → sh ≡ s.shard_height
      → a ≡ length s.completed_roots
      → b ≡ length s.live_leaves
      → c ≡ length s.owned_notes
      → write s d sh a b c
        ≡ write s s.depth s.shard_height
            (length s.completed_roots)
            (length s.live_leaves)
            (length s.owned_notes)
  write_same s d sh a b c e1 e2 e3 e4 e5 =
      ap₂ (λ (x y : ℕ). write s x y a b c) e1 e2
      ∙ ap₂ (λ (x y : ℕ). write s s.depth s.shard_height x y c) e3 e4
      ∙ ap (write s s.depth s.shard_height (length s.completed_roots) (length s.live_leaves)) e5

  written :
      (s : ShardedTreeSnapshot F)
      → All (NoteFits s.shard_height) s.owned_notes
      → write s s.depth s.shard_height
          (length s.completed_roots)
          (length s.live_leaves)
          (length s.owned_notes)
        ≡ ok (snapshot_bytes s)
  unfolding snapshot_bytes body_bytes
  written s fits =
      let a : List ℕ = be_bytes 4 (length s.completed_roots) in
      let b : List ℕ = be_bytes 4 (length s.live_leaves) in
      let c : List ℕ = be_bytes 4 (length s.owned_notes) in
      let head : List ℕ = snapshot_magic ++ (1 ∷ s.depth ∷ s.shard_height ∷ 0 ∷ (a ++ (b ++ c))) in
      let x : List ℕ = fields_bytes s.completed_roots in
      let y : List ℕ = fields_bytes s.live_leaves in
      let z : List ℕ = notes_bytes s.owned_notes in
      ap (λ (t : List ℕ). append_owned s.shard_height (append_fields t s.live_leaves) s.owned_notes)
        (append_fields_lem head s.completed_roots)
      ∙ ap (λ (t : List ℕ). append_owned s.shard_height t s.owned_notes)
          (append_fields_lem (head ++ x) s.live_leaves)
      ∙ append_owned_lem s.shard_height ((head ++ x) ++ y) s.owned_notes fits
      ∙ ap ok (
          append_assoc (head ++ x) y z
          ∙ append_assoc head x (y ++ z)
          ∙ ap (λ (t : List ℕ). snapshot_magic ++ (1 ∷ s.depth ∷ s.shard_height ∷ 0 ∷ t))
              (append_assoc a (b ++ c) (x ++ (y ++ z))
                ∙ ap (λ (t : List ℕ). a ++ t) (append_assoc b c (x ++ (y ++ z)))))

  byte_capacity_lem :
      (s : ShardedTreeSnapshot F)
      → 20 + length (body_bytes s) < 2 ^ 64
      → byte_capacity s ≡ ok (20 + length (body_bytes s))
  unfolding byte_capacity
  byte_capacity_lem s h =
      let l : length (body_bytes s)
          ≡ 32 * (length s.completed_roots + length s.live_leaves)
            + (40 * length s.owned_notes + 32 * siblings_count s.owned_notes) =
        length-body_bytes s in
      rw
        (
          fit_lem (2 ^ 64) (length s.completed_roots + length s.live_leaves) size_overflow
              (omega arith),
          fit_lem (2 ^ 64) (length s.completed_roots + length s.live_leaves + length s.owned_notes)
              size_overflow (omega arith),
          fit_lem (2 ^ 64)
              (length s.completed_roots
                + length s.live_leaves
                + length s.owned_notes
                + siblings_count s.owned_notes)
              size_overflow (omega arith),
          fit_lem (2 ^ 64) (length s.owned_notes * 8) size_overflow (omega arith),
          fit_lem (2 ^ 64)
              ((length s.completed_roots
                  + length s.live_leaves
                  + length s.owned_notes
                  + siblings_count s.owned_notes)
                * 32)
              size_overflow (omega arith),
          fit_lem (2 ^ 64)
              (20
                + (length s.completed_roots
                    + length s.live_leaves
                    + length s.owned_notes
                    + siblings_count s.owned_notes)
                  * 32)
              size_overflow (omega arith),
          fit_lem (2 ^ 64)
              (20
                + (length s.completed_roots
                    + length s.live_leaves
                    + length s.owned_notes
                    + siblings_count s.owned_notes)
                  * 32
                + length s.owned_notes * 8)
              size_overflow (omega arith),
        )
        (ap ok (omega arith))

  pub encode_lem :
      (s : ShardedTreeSnapshot F)
      → IsSnapshot s
      → 20 + length (body_bytes s) < 2 ^ 64
      → encode s ≡ ok (snapshot_bytes s)
  unfolding encode snapshot_bytes
  encode_lem s w h =
      rw
        (
          w.geometry,
          w.shape,
          fit_lem 256 s.depth depth_too_wide w.narrow,
          fit_lem 256 s.shard_height shard_height_too_wide (ground (arith, w.geometry, w.narrow)),
          fit_lem (2 ^ 32) (length s.completed_roots) too_many_completed w.roots_fit,
          fit_lem (2 ^ 32) (length s.live_leaves) too_many_live w.live_fit,
          fit_lem (2 ^ 32) (length s.owned_notes) too_many_owned w.owned_fit,
          byte_capacity_lem s h,
        )
        (written s w.notes_fit)

  pub encode_ok :
      (s : ShardedTreeSnapshot F) {bytes : List ℕ}
      → encode s ≡ ok bytes
      → IsSnapshot s × (snapshot_bytes s ≡ bytes)
  unfolding encode snapshot_bytes
  encode_ok s {bytes} h =
      let (geometry, h1) =
        ensure-ok (not (s.shard_height == 0 || leb s.depth s.shard_height)) _ h in
      let (unit, shape, h2) = >>=-ok _ _ h1 in
      let (d, depth, h3) = >>=-ok _ (fit 256 s.depth depth_too_wide) h2 in
      let (narrow, d') = fit_ok 256 s.depth depth_too_wide depth in
      let (sh, height, h4) = >>=-ok _ (fit 256 s.shard_height shard_height_too_wide) h3 in
      let (_, sh') = fit_ok 256 s.shard_height shard_height_too_wide height in
      let (a, roots, h5) =
        >>=-ok _ (fit (2 ^ 32) (length s.completed_roots) too_many_completed) h4 in
      let (a_fits, a') = fit_ok (2 ^ 32) (length s.completed_roots) too_many_completed roots in
      let (b, live, h6) = >>=-ok _ (fit (2 ^ 32) (length s.live_leaves) too_many_live) h5 in
      let (b_fits, b') = fit_ok (2 ^ 32) (length s.live_leaves) too_many_live live in
      let (c, owned, h7) = >>=-ok _ (fit (2 ^ 32) (length s.owned_notes) too_many_owned) h6 in
      let (c_fits, c') = fit_ok (2 ^ 32) (length s.owned_notes) too_many_owned owned in
      let (_, _, h8) = >>=-ok _ (byte_capacity s) h7 in
      let notes : All (NoteFits s.shard_height) s.owned_notes =
        append_owned_ok s.shard_height _ s.owned_notes h8 in
      let same : ok (snapshot_bytes s) ≡ ok bytes =
        sym (written s notes) ∙ sym (write_same s d sh a b c d' sh' a' b' c') ∙ h8 in
      let good : (s.shard_height == 0 || leb s.depth s.shard_height) ≡ false =
        false_of_not _ geometry in
      (
        record {
          geometry = good;
          narrow = narrow;
          shape = shape ∙ ap ok (unit_eq unit);
          roots_fit = a_fits;
          live_fit = b_fits;
          owned_fit = c_fits;
          notes_fit = notes;
        },
        ok_eq same,
      )
