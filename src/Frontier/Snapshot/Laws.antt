-- ===== src/Frontier/Snapshot/Laws.antt =====
-- Reading a frontier's snapshot back, and what the reader accepts.
use mathlib.Core.Path.{subst}
use rs_core.Prelude.{
  ℕ, ◌+◌, ◌%◌, ◌≤◌, ◌<◌, ◌≡◌, sym, ap, ap₂, ◌∙◌, List, [], ◌∷◌, ◌++◌, arith, length, ◌==◌, ltb, not,
  take, drop, get_or, ==→eq, le→ltb, le→leb, ◌↔◌,
}
use rs_core.Outcome.{
  ok, ◌>>◌, ensure, ensure-ok, index-get_or, invalid_snapshot, frontier_magic, frontier_version,
  frontier_reserved,
}
use rs_core.Assoc.{All}
use rs_core.Bytes.{
  IsByte, All-right, be_bytes, from_be, same_bytes, same_bytes→eq, length-be_bytes,
  from_be-be_bytes, window, drop-window, take-window, exact_window, be_bytes-from_be_range,
}
use rs_core.Wire.{FrInt}
use rs_core.Field.{Fr}
use rs_core.Frontier.{NotesFrontier}
use rs_core.Frontier.Snapshot.{
  encode_snapshot, from_snapshot_bytes, read_frontier, slots_bytes, snapshot_magic,
}
use rs_core.Frontier.Snapshot.Body.{
  IsFrontier, count_fits, assemble, read_frontier-slots_bytes, read_frontier_ok,
}

module _ {F : Type 0} ⦃fr : Fr F⦄ ⦃int : FrInt F⦄ where
  -- Past the length check, no read of the header is out of bounds.
  from_snapshot_bytes_long :
      (bytes : List ℕ)
      → 24 ≤ length bytes
      → from_snapshot_bytes {F = F} bytes ≡ (do
        ensure (same_bytes (take 8 bytes) snapshot_magic) (invalid_snapshot frontier_magic)
        ensure (get_or bytes 8 0 == 1) (invalid_snapshot (frontier_version (get_or bytes 8 0)))
        ensure (get_or bytes 11 0 == 0) (invalid_snapshot frontier_reserved)
        read_frontier
            (get_or bytes 9 0)
            (get_or bytes 10 0)
            (from_be (take 8 (drop 12 bytes)))
            (from_be (take 4 (drop 20 bytes)))
            (drop 24 bytes))
  unfolding from_snapshot_bytes
  from_snapshot_bytes_long bytes h = rw (
    le→ltb (length bytes) 24 h,
    index-get_or bytes 8 0 (omega arith),
    index-get_or bytes 9 0 (omega arith),
    index-get_or bytes 10 0 (omega arith),
    index-get_or bytes 11 0 (omega arith),
    le→leb 20 (length bytes) (omega arith),
    le→leb 24 (length bytes) h,
  )

  read_header :
      (d sh c0 c1 c2 c3 c4 c5 c6 c7 k0 k1 k2 k3 : ℕ) (rest : List ℕ)
      → from_snapshot_bytes {F = F} (
          snapshot_magic
          ++ (1 ∷ d ∷ sh ∷ 0 ∷ c0 ∷ c1 ∷ c2 ∷ c3 ∷ c4 ∷ c5 ∷ c6 ∷ c7 ∷ k0 ∷ k1 ∷ k2 ∷ k3 ∷ rest))
        ≡ read_frontier d sh
            (from_be (c0 ∷ c1 ∷ c2 ∷ c3 ∷ c4 ∷ c5 ∷ c6 ∷ c7 ∷ []))
            (from_be (k0 ∷ k1 ∷ k2 ∷ k3 ∷ []))
            rest
  unfolding same_bytes
  read_header d sh c0 c1 c2 c3 c4 c5 c6 c7 k0 k1 k2 k3 rest =
      from_snapshot_bytes_long
        (snapshot_magic
          ++ (1 ∷ d ∷ sh ∷ 0 ∷ c0 ∷ c1 ∷ c2 ∷ c3 ∷ c4 ∷ c5 ∷ c6 ∷ c7 ∷ k0 ∷ k1 ∷ k2 ∷ k3 ∷ rest))
        (omega arith)

  read_header_lists :
      (d sh : ℕ) (count slots rest : List ℕ)
      → length count ≡ 8
      → length slots ≡ 4
      → from_snapshot_bytes {F = F}
          (snapshot_magic ++ (1 ∷ d ∷ sh ∷ 0 ∷ (count ++ (slots ++ rest))))
        ≡ read_frontier d sh (from_be count) (from_be slots) rest
  read_header_lists d sh count slots rest eight four =
      subst
        (λ (c : List ℕ).
          from_snapshot_bytes {F = F} (snapshot_magic ++ (1 ∷ d ∷ sh ∷ 0 ∷ (c ++ (slots ++ rest))))
          ≡ read_frontier d sh (from_be c) (from_be slots) rest)
        (exact_window 8 count eight)
        (subst
          (λ (s : List ℕ).
            from_snapshot_bytes {F = F}
              (snapshot_magic ++ (1 ∷ d ∷ sh ∷ 0 ∷ (window 8 0 count ++ (s ++ rest))))
            ≡ read_frontier d sh (from_be (window 8 0 count)) (from_be s) rest)
          (exact_window 4 slots four) (read_header d sh _ _ _ _ _ _ _ _ _ _ _ _ rest))

  -- A snapshot's bytes read back as the frontier they were made of.
  pub from_snapshot_bytes-encode_snapshot :
      (t : NotesFrontier F) → IsFrontier t → from_snapshot_bytes (encode_snapshot t) ≡ ok t
  unfolding encode_snapshot
  from_snapshot_bytes-encode_snapshot t w =
      let c : t.depth < 64 = w.fits in
      let q : t.shard_height < t.depth = w.below in
      let s : length t.frontier ≡ t.depth + 1 = w.slots in
      read_header_lists (t.depth % 256) (t.shard_height % 256) (be_bytes 8 t.leaf_count)
        (be_bytes 4 (length t.frontier)) (slots_bytes t.frontier) (length-be_bytes 8 t.leaf_count)
        (length-be_bytes 4 (length t.frontier))
      ∙ ap₂
          (λ (a b : ℕ).
            read_frontier a b (from_be (be_bytes 8 t.leaf_count))
              (from_be (be_bytes 4 (length t.frontier))) (slots_bytes t.frontier))
          (omega arith) (omega arith)
      ∙ ap₂ (λ (a b : ℕ). read_frontier t.depth t.shard_height a b (slots_bytes t.frontier))
          (from_be-be_bytes 8 t.leaf_count (count_fits t.depth t.leaf_count c w.room))
          (from_be-be_bytes 4 (length t.frontier) (omega arith))
      ∙ read_frontier-slots_bytes t w

  from_snapshot_bytes-length :
      (bytes : List ℕ) {t : NotesFrontier F} → from_snapshot_bytes bytes ≡ ok t → 24 ≤ length bytes
  unfolding from_snapshot_bytes
  from_snapshot_bytes-length bytes h =
      let (long, _) = ensure-ok (not (ltb (length bytes) 24)) _ h in ground arith

  -- What the reader accepts is the snapshot of the frontier it gives.
  encode_snapshot-from_snapshot_bytes :
      (bytes : List ℕ) (t : NotesFrontier F)
      → All IsByte bytes
      → from_snapshot_bytes bytes ≡ ok t
      → IsFrontier t × (encode_snapshot t ≡ bytes)
  unfolding encode_snapshot
  encode_snapshot-from_snapshot_bytes bytes t b h =
      let len : 24 ≤ length bytes = from_snapshot_bytes-length bytes h in
      let all : bytes ≡ window 24 0 bytes ++ drop 24 bytes = drop-window 24 0 bytes len in
      let b' : All IsByte (window 24 0 bytes ++ drop 24 bytes) = subst (All IsByte) all b in
      let count : be_bytes 8 (from_be (take 8 (drop 12 bytes))) ≡ window 8 12 bytes =
        be_bytes-from_be_range 8 12 bytes (omega arith) b in
      let slots : be_bytes 4 (from_be (take 4 (drop 20 bytes))) ≡ window 4 20 bytes =
        be_bytes-from_be_range 4 20 bytes (omega arith) b in
      let (magic, h1) = ensure-ok _ _ (sym (from_snapshot_bytes_long bytes len) ∙ h) in
      let (version, h2) = ensure-ok (get_or bytes 8 0 == 1) _ h1 in
      let (reserved, h3) = ensure-ok (get_or bytes 11 0 == 0) _ h2 in
      let (w, d, sh, n, k, body) =
        read_frontier_ok (get_or bytes 9 0) (get_or bytes 10 0) (from_be (take 8 (drop 12 bytes)))
          (from_be (take 4 (drop 20 bytes))) (drop 24 bytes)
          (All-right IsByte (window 24 0 bytes) (drop 24 bytes) b') h3 in
      let magic' : window 8 0 bytes ≡ snapshot_magic =
        sym (take-window 8 0 bytes (omega (arith, len)))
        ∙ same_bytes→eq (take 8 bytes) snapshot_magic magic in
      let depth : t.depth % 256 ≡ get_or bytes 9 0 = omega (arith, w.fits, d) in
      let shard : t.shard_height % 256 ≡ get_or bytes 10 0 = omega (arith, w.fits, w.below, sh) in
      (
        w,
        assemble (sym magic') (sym (==→eq _ 1 version)) depth shard (sym (==→eq _ 0 reserved))
              (ap (be_bytes 8) n ∙ count) (ap (be_bytes 4) k ∙ slots) (sym body)
            ∙ sym all,
      )

  -- On bytes, `from_snapshot_bytes` returns the frontier `t` exactly if `t` has the geometry that
  -- `new` sets up, a leaf count within its capacity and a node for each set bit of that count,
  -- and the bytes are what `encode_snapshot` makes of `t`. So every such frontier is read back,
  -- and no other bytes are accepted: no second encoding of a frontier, no trailing byte.
  pub from_snapshot_bytes_iff :
      (bytes : List ℕ) (t : NotesFrontier F)
      → All IsByte bytes
      → (from_snapshot_bytes bytes ≡ ok t) ↔ (IsFrontier t × (encode_snapshot t ≡ bytes))
  from_snapshot_bytes_iff bytes t b = (
    encode_snapshot-from_snapshot_bytes bytes t b,
    λ (w, e).
        subst (λ (s : List ℕ). from_snapshot_bytes s ≡ ok t) e
          (from_snapshot_bytes-encode_snapshot t w),
  )
