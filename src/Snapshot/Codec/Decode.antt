-- ===== src/Snapshot/Codec/Decode.antt =====
-- What `decode` reads behind the header.
use mathlib.Core.Path.{subst}
use rs_core.Prelude.{
  ℕ, ◌+◌, ◌-◌, ◌*◌, ◌^◌, ◌<◌, ◌≡◌, refl, sym, ap, ap₂, ◌∙◌, List, [], ◌∷◌, ◌++◌, false, not, ◌||◌,
  arith, length, ltb, leb, ◌==◌, append-nil, le→ltb, ==→eq,
}
use rs_core.Outcome.{
  ok, ◌>>=◌, ◌>>◌, ensure, ensure-ok, ok_eq, >>=-ok, invalid_snapshot, field_count_overflow,
  field_bytes_overflow, owned_bytes_overflow, trailing_bytes,
}
use rs_core.Assoc.{All}
use rs_core.Bytes.{IsByte, All-right}
use rs_core.Wire.{FrInt}
use rs_core.Sharded.{OwnedNoteWitness}
use rs_core.Snapshot.{fields_bytes, read_fields, read_fields-fields_bytes, read_fields_ok}
use rs_core.Snapshot.Codec.{
  ShardedTreeSnapshot, fit, check_shape, siblings_count, read_owned, decode_body,
}
use rs_core.Snapshot.Codec.Records.{read_owned-notes_bytes, read_owned_ok}
use rs_core.Snapshot.Codec.Written.{fit_lem, notes_bytes}
use rs_core.Snapshot.Codec.Layout.{IsSnapshot, unit_eq, body_bytes, length-body_bytes}

no_bytes : (bytes : List ℕ) → length bytes ≡ 0 → bytes ≡ []
no_bytes [] e = refl
no_bytes (b ∷ bytes) e = absurd (omega arith)

module _ {F : Type 0} ⦃int : FrInt F⦄ where
  read_body :
      (s : ShardedTreeSnapshot F)
      → IsSnapshot s
      → (read_fields (body_bytes s) (length s.completed_roots) >>= λ (r1 : List F × List ℕ).
          read_fields r1.1 (length s.live_leaves) >>= λ (r2 : List F × List ℕ).
          read_owned s.shard_height (length s.owned_notes) r2.1
          >>= λ (r3 : List (OwnedNoteWitness F) × List ℕ).
              ensure (length r3.1 == 0) (invalid_snapshot trailing_bytes)
              >> ok (record {
                depth = s.depth;
                shard_height = s.shard_height;
                completed_roots = r1.0;
                live_leaves = r2.0;
                owned_notes = r3.0;
              }))
        ≡ ok s
  unfolding body_bytes
  read_body s w = rw (
    read_fields-fields_bytes s.completed_roots
        (fields_bytes s.live_leaves ++ notes_bytes s.owned_notes),
    read_fields-fields_bytes s.live_leaves (notes_bytes s.owned_notes),
    ap (read_owned s.shard_height (length s.owned_notes))
          (sym (append-nil (notes_bytes s.owned_notes)))
        ∙ read_owned-notes_bytes s.shard_height s.owned_notes [] w.notes_fit,
  )

  pub decode_body_lem :
      (s : ShardedTreeSnapshot F)
      → IsSnapshot s
      → decode_body s.depth s.shard_height
          (length s.completed_roots)
          (length s.live_leaves)
          (length s.owned_notes)
          (body_bytes s)
        ≡ ok s
  unfolding decode_body
  decode_body_lem s w =
      let a : ℕ = length s.completed_roots in
      let b : ℕ = length s.live_leaves in
      let c : ℕ = length s.owned_notes in
      let ha : a < 2 ^ 32 = w.roots_fit in
      let hb : b < 2 ^ 32 = w.live_fit in
      let hc : c < 2 ^ 32 = w.owned_fit in
      let l : length (body_bytes s) ≡ 32 * (a + b) + (40 * c + 32 * siblings_count s.owned_notes) =
        length-body_bytes s in
      let x : List ℕ = fields_bytes s.live_leaves ++ notes_bytes s.owned_notes in
      rw
        (
          w.shape,
          fit_lem (2 ^ 64) (length s.completed_roots + length s.live_leaves) field_count_overflow
              (omega arith),
          fit_lem (2 ^ 64) ((length s.completed_roots + length s.live_leaves) * 32)
              field_bytes_overflow (omega arith),
          le→ltb (length (body_bytes s)) ((length s.completed_roots + length s.live_leaves) * 32)
              (omega arith),
          fit_lem (2 ^ 64) (length s.owned_notes * 40) owned_bytes_overflow (omega arith),
          le→ltb (length (body_bytes s) - (length s.completed_roots + length s.live_leaves) * 32)
              (length s.owned_notes * 40) (omega arith),
        )
        (read_body s w)

  pub decode_body_ok :
      (d sh a b c : ℕ) (bytes : List ℕ) {s : ShardedTreeSnapshot F}
      → (sh == 0 || leb d sh) ≡ false
      → d < 256
      → a < 2 ^ 32
      → b < 2 ^ 32
      → c < 2 ^ 32
      → All IsByte bytes
      → decode_body d sh a b c bytes ≡ ok s
      → IsSnapshot s
        × (s.depth ≡ d)
        × (s.shard_height ≡ sh)
        × (length s.completed_roots ≡ a)
        × (length s.live_leaves ≡ b)
        × (length s.owned_notes ≡ c)
        × (body_bytes s ≡ bytes)
  unfolding decode_body body_bytes
  decode_body_ok d sh a b c bytes {s} geometry narrow ha hb hc all h =
      let (unit, shape, h1) = >>=-ok _ (check_shape d sh a b) h in
      let (n, e1, h2) = >>=-ok _ (fit (2 ^ 64) (a + b) field_count_overflow) h1 in
      let (m, e2, h3) = >>=-ok _ (fit (2 ^ 64) (n * 32) field_bytes_overflow) h2 in
      let (_, h4) = ensure-ok (not (ltb (length bytes) m)) _ h3 in
      let (k, e3, h5) = >>=-ok _ (fit (2 ^ 64) (c * 40) owned_bytes_overflow) h4 in
      let (_, h6) = ensure-ok (not (ltb (length bytes - m) k)) _ h5 in
      let ((roots, rest1), read1, h7) = >>=-ok _ (read_fields bytes a) h6 in
      let (cut1, count1) = read_fields_ok bytes a all read1 in
      let all1 : All IsByte rest1 =
        All-right IsByte (fields_bytes roots) rest1 (subst (All IsByte) cut1 all) in
      let ((live, rest2), read2, h8) = >>=-ok _ (read_fields rest1 b) h7 in
      let (cut2, count2) = read_fields_ok rest1 b all1 read2 in
      let all2 : All IsByte rest2 =
        All-right IsByte (fields_bytes live) rest2 (subst (All IsByte) cut2 all1) in
      let ((notes, rest3), read3, h9) = >>=-ok _ (read_owned sh c rest2) h8 in
      let (fits, count3, cut3) = read_owned_ok sh c rest2 all2 read3 in
      let (end, h10) = ensure-ok (length rest3 == 0) _ h9 in
      let made : ShardedTreeSnapshot F = record {
        depth = d;
        shard_height = sh;
        completed_roots = roots;
        live_leaves = live;
        owned_notes = notes;
      } in
      let e : made ≡ s = ok_eq h10 in
      subst
        (λ (s : ShardedTreeSnapshot F).
          IsSnapshot s
          × (s.depth ≡ d)
          × (s.shard_height ≡ sh)
          × (length s.completed_roots ≡ a)
          × (length s.live_leaves ≡ b)
          × (length s.owned_notes ≡ c)
          × (body_bytes s ≡ bytes))
        e
        (
          record {
            geometry = geometry;
            narrow = narrow;
            shape = ap₂ (check_shape d sh) count1 count2 ∙ shape ∙ ap ok (unit_eq unit);
            roots_fit = rw count1 ha;
            live_fit = rw count2 hb;
            owned_fit = rw count3 hc;
            notes_fit = fits;
          },
          refl,
          refl,
          count1,
          count2,
          count3,
          sym (
              cut1
              ∙ ap (λ (t : List ℕ). fields_bytes roots ++ t)
                  (cut2
                    ∙ ap (λ (t : List ℕ). fields_bytes live ++ t)
                        (cut3
                          ∙ ap (λ (t : List ℕ). notes_bytes notes ++ t)
                              (no_bytes rest3 (==→eq (length rest3) 0 end))
                          ∙ append-nil (notes_bytes notes)))),
        )
