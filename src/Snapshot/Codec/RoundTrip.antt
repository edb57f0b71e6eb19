-- ===== src/Snapshot/Codec/RoundTrip.antt =====
-- `encode` and `decode` of `ShardedTreeSnapshot` are inverse to each other.
use mathlib.Core.Path.{subst}
use rs_core.Prelude.{
  ℕ, ◌+◌, ◌^◌, ◌≤◌, ◌<◌, ◌≡◌, sym, ap, ap₂, ◌∙◌, List, [], ◌∷◌, ◌++◌, false, not, ◌||◌, arith,
  length, ltb, leb, ◌==◌, take, drop, get_or, le→ltb, ==→eq, ◌↔◌,
}
use rs_core.Outcome.{
  ok, ◌>>◌, ensure, ensure-ok, index-get_or, invalid_snapshot, invalid_geometry, bad_magic,
  unsupported_version, reserved_header,
}
use rs_core.Assoc.{All}
use rs_core.Bytes.{
  IsByte, All-right, be_bytes, from_be, from_be-be_bytes, same_bytes, same_bytes→eq, window,
  drop-window, take-window, be_bytes-from_be_range, le_bytes, reverse, window-IsByte, get_or-IsByte,
  from_be-lt,
}
use rs_core.Wire.{FrInt}
use rs_core.Snapshot.{read_u32_inside}
use rs_core.Snapshot.Codec.{ShardedTreeSnapshot, snapshot_magic, encode, decode_body, decode}
use rs_core.Snapshot.Codec.Layout.{IsSnapshot, false_of_not, body_bytes, snapshot_bytes}
use rs_core.Snapshot.Codec.Encode.{encode_lem, encode_ok}
use rs_core.Snapshot.Codec.Decode.{decode_body_lem, decode_body_ok}

assemble :
    {m m' a a' b b' c c' rest rest' : List ℕ} {v v' d d' s s' r r' : ℕ}
    → m ≡ m'
    → v ≡ v'
    → d ≡ d'
    → s ≡ s'
    → r ≡ r'
    → a ≡ a'
    → b ≡ b'
    → c ≡ c'
    → rest ≡ rest'
    → m ++ (v ∷ d ∷ s ∷ r ∷ (a ++ (b ++ (c ++ rest))))
      ≡ m' ++ (v' ∷ d' ∷ s' ∷ r' ∷ (a' ++ (b' ++ (c' ++ rest'))))
assemble e1 e2 e3 e4 e5 e6 e7 e8 e9 = cc

from_be_range-lt :
    (i : ℕ) (bytes : List ℕ)
    → i + 4 ≤ length bytes
    → All IsByte bytes
    → from_be (take 4 (drop i bytes)) < 2 ^ 32
from_be_range-lt i bytes h b =
    rw (take-window 4 i bytes h) (from_be-lt (window 4 i bytes) (window-IsByte 4 i bytes b))

module _ {F : Type 0} ⦃int : FrInt F⦄ where
  body_small :
      (s : ShardedTreeSnapshot F) (bytes : List ℕ)
      → snapshot_bytes s ≡ bytes
      → length bytes < 2 ^ 64
      → 20 + length (body_bytes s) < 2 ^ 64
  unfolding snapshot_bytes be_bytes le_bytes reverse
  body_small s bytes layout small =
      let l : length (snapshot_bytes s) ≡ length bytes = ap length layout in omega arith

  decode-length :
      (bytes : List ℕ) {s : ShardedTreeSnapshot F} → decode bytes ≡ ok s → 20 ≤ length bytes
  unfolding decode
  decode-length bytes h =
      let (long, _) = ensure-ok (not (ltb (length bytes) 20)) _ h in ground arith

  -- Past the length check, no read of the header is out of bounds.
  decode_long :
      (bytes : List ℕ)
      → 20 ≤ length bytes
      → decode {F = F} bytes ≡ (do
        ensure (same_bytes (take 4 bytes) snapshot_magic) (invalid_snapshot bad_magic)
        ensure (get_or bytes 4 0 == 1) (invalid_snapshot (unsupported_version (get_or bytes 4 0)))
        ensure (get_or bytes 7 0 == 0) (invalid_snapshot reserved_header)
        ensure
            (not (get_or bytes 6 0 == 0 || leb (get_or bytes 5 0) (get_or bytes 6 0)))
            (invalid_geometry (get_or bytes 5 0) (get_or bytes 6 0))
        decode_body
            (get_or bytes 5 0)
            (get_or bytes 6 0)
            (from_be (take 4 (drop 8 bytes)))
            (from_be (take 4 (drop 12 bytes)))
            (from_be (take 4 (drop 16 bytes)))
            (drop 20 bytes))
  unfolding decode
  decode_long bytes h = rw (
    le→ltb (length bytes) 20 h,
    index-get_or bytes 4 0 (omega arith),
    index-get_or bytes 5 0 (omega arith),
    index-get_or bytes 6 0 (omega arith),
    index-get_or bytes 7 0 (omega arith),
    read_u32_inside bytes 8 (omega arith),
    read_u32_inside bytes 12 (omega arith),
    read_u32_inside bytes 16 (omega arith),
  )

  decode_header :
      (d sh a0 a1 a2 a3 b0 b1 b2 b3 c0 c1 c2 c3 : ℕ) (rest : List ℕ)
      → (sh == 0 || leb d sh) ≡ false
      → decode {F = F} (
          snapshot_magic
          ++ (1 ∷ d ∷ sh ∷ 0 ∷ a0 ∷ a1 ∷ a2 ∷ a3 ∷ b0 ∷ b1 ∷ b2 ∷ b3 ∷ c0 ∷ c1 ∷ c2 ∷ c3 ∷ rest))
        ≡ decode_body d sh
            (from_be (a0 ∷ a1 ∷ a2 ∷ a3 ∷ []))
            (from_be (b0 ∷ b1 ∷ b2 ∷ b3 ∷ []))
            (from_be (c0 ∷ c1 ∷ c2 ∷ c3 ∷ []))
            rest
  unfolding same_bytes
  decode_header d sh a0 a1 a2 a3 b0 b1 b2 b3 c0 c1 c2 c3 rest g =
      decode_long
        (snapshot_magic
          ++ (1 ∷ d ∷ sh ∷ 0 ∷ a0 ∷ a1 ∷ a2 ∷ a3 ∷ b0 ∷ b1 ∷ b2 ∷ b3 ∷ c0 ∷ c1 ∷ c2 ∷ c3 ∷ rest))
        (omega arith)
      ∙ rw g

  -- The layout of a snapshot reads back as the snapshot.
  decode-snapshot_bytes :
      (s : ShardedTreeSnapshot F) → IsSnapshot s → decode (snapshot_bytes s) ≡ ok s
  unfolding snapshot_bytes be_bytes le_bytes reverse
  decode-snapshot_bytes s w =
      decode_header s.depth s.shard_height _ _ _ _ _ _ _ _ _ _ _ _ (body_bytes s) w.geometry
      ∙ ap₂
          (λ (x y : ℕ).
            decode_body s.depth s.shard_height x y (from_be (be_bytes 4 (length s.owned_notes)))
              (body_bytes s))
          (from_be-be_bytes 4 (length s.completed_roots) w.roots_fit)
          (from_be-be_bytes 4 (length s.live_leaves) w.live_fit)
      ∙ ap
          (λ (z : ℕ).
            decode_body s.depth s.shard_height (length s.completed_roots) (length s.live_leaves) z
              (body_bytes s))
          (from_be-be_bytes 4 (length s.owned_notes) w.owned_fit)
      ∙ decode_body_lem s w

  -- What `decode` accepts is the layout of the snapshot that it gives.
  snapshot_bytes-decode :
      (bytes : List ℕ) {s : ShardedTreeSnapshot F}
      → All IsByte bytes
      → decode bytes ≡ ok s
      → IsSnapshot s × (snapshot_bytes s ≡ bytes)
  unfolding snapshot_bytes
  snapshot_bytes-decode bytes {s} b h =
      let len : 20 ≤ length bytes = decode-length bytes h in
      let all : bytes ≡ window 20 0 bytes ++ drop 20 bytes = drop-window 20 0 bytes len in
      let b' : All IsByte (window 20 0 bytes ++ drop 20 bytes) = subst (All IsByte) all b in
      let x : be_bytes 4 (from_be (take 4 (drop 8 bytes))) ≡ window 4 8 bytes =
        be_bytes-from_be_range 4 8 bytes (omega arith) b in
      let y : be_bytes 4 (from_be (take 4 (drop 12 bytes))) ≡ window 4 12 bytes =
        be_bytes-from_be_range 4 12 bytes (omega arith) b in
      let z : be_bytes 4 (from_be (take 4 (drop 16 bytes))) ≡ window 4 16 bytes =
        be_bytes-from_be_range 4 16 bytes (omega arith) b in
      let start : take 4 bytes ≡ window 4 0 bytes = take-window 4 0 bytes (omega arith) in
      let narrow : get_or bytes 5 0 < 256 = get_or-IsByte bytes 5 b in
      let a_fits : from_be (take 4 (drop 8 bytes)) < 2 ^ 32 =
        from_be_range-lt 8 bytes (omega arith) b in
      let b_fits : from_be (take 4 (drop 12 bytes)) < 2 ^ 32 =
        from_be_range-lt 12 bytes (omega arith) b in
      let c_fits : from_be (take 4 (drop 16 bytes)) < 2 ^ 32 =
        from_be_range-lt 16 bytes (omega arith) b in
      let (magic, h1) = ensure-ok _ _ (sym (decode_long bytes len) ∙ h) in
      let (version, h2) = ensure-ok (get_or bytes 4 0 == 1) _ h1 in
      let (reserved, h3) = ensure-ok (get_or bytes 7 0 == 0) _ h2 in
      let (geometry, h4) =
        ensure-ok (not (get_or bytes 6 0 == 0 || leb (get_or bytes 5 0) (get_or bytes 6 0))) _ h3 in
      let (w, d, sh, a, live, c, body) =
        decode_body_ok (get_or bytes 5 0) (get_or bytes 6 0) (from_be (take 4 (drop 8 bytes)))
          (from_be (take 4 (drop 12 bytes))) (from_be (take 4 (drop 16 bytes))) (drop 20 bytes)
          (false_of_not _ geometry) narrow a_fits b_fits c_fits
          (All-right IsByte (window 20 0 bytes) (drop 20 bytes) b') h4 in
      (
        w,
        assemble (sym (same_bytes→eq (take 4 bytes) snapshot_magic magic) ∙ start)
              (sym (==→eq _ 1 version)) d sh (sym (==→eq _ 0 reserved)) (ap (be_bytes 4) a ∙ x)
              (ap (be_bytes 4) live ∙ y) (ap (be_bytes 4) c ∙ z) body
            ∙ sym all,
      )

  pub decode-encode :
      (s : ShardedTreeSnapshot F) {bytes : List ℕ} → encode s ≡ ok bytes → decode bytes ≡ ok s
  decode-encode s {bytes} h =
      let (w, layout) = encode_ok s h in
      subst (λ (t : List ℕ). decode t ≡ ok s) layout (decode-snapshot_bytes s w)

  -- On bytes that fit the address space, `decode` returns the snapshot `s` exactly if `encode`
  -- turns `s` into those bytes: whatever is encoded is read back, and no other bytes are accepted.
  pub decode_iff :
      (bytes : List ℕ) (s : ShardedTreeSnapshot F)
      → All IsByte bytes
      → length bytes < 2 ^ 64
      → (decode bytes ≡ ok s) ↔ (encode s ≡ ok bytes)
  decode_iff bytes s b small = (
    λ h.
        let (w, layout) = snapshot_bytes-decode bytes b h in
        encode_lem s w (body_small s bytes layout small) ∙ ap ok layout,
    decode-encode s,
  )
