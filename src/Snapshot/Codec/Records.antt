-- ===== src/Snapshot/Codec/Records.antt =====
-- The records of owned notes in a snapshot: what `decode` reads of the bytes that `encode` writes.
use mathlib.Core.Path.{subst}
use rs_core.Prelude.{
  ℕ, zero, suc, ◌+◌, ◌*◌, ◌≡◌, refl, sym, ap, ap₂, ◌∙◌, List, [], ◌∷◌, ◌++◌, Option, none, some,
  arith, length, length-append, ◌==◌, Bool-cases, inl, inr, append_assoc, ==→eq,
}
use rs_core.Outcome.{
  ok, ensure-ok, >>=-ok, ok_or, invalid_snapshot, truncated_owned_flag, truncated_padding,
}
use rs_core.Assoc.{All}
use rs_core.Bytes.{IsByte, All-right, be_bytes, get_range, get_range_ok, same_bytes, same_bytes→eq}
use rs_core.Wire.{FrInt, fr_to_be_32}
use rs_core.Sharded.{OwnedNoteWitness}
use rs_core.Snapshot.{
  read_field, read_field-fr_to_be_32, read_field_ok, read_u32_at_cursor,
  read_u32_at_cursor-be_bytes, read_u32_at_cursor_ok, read_fields, read_fields_ok, read_byte,
}
use rs_core.Snapshot.Codec.{siblings_count, read_path, read_owned_note, read_owned}
use rs_core.Snapshot.Codec.Written.{
  read_byte_ok, ok_or_ok, PathFits, NoteFits, path_bytes, note_bytes, notes_bytes,
  length-note_bytes, read_tail,
}

module _ {F : Type 0} ⦃int : FrInt F⦄ where
  pub length-notes_bytes :
      (notes : List (OwnedNoteWitness F))
      → length (notes_bytes notes) ≡ 40 * length notes + 32 * siblings_count notes
  unfolding notes_bytes siblings_count
  length-notes_bytes [] = omega arith
  length-notes_bytes (owned ∷ notes) = omega (
    arith,
    length-append (note_bytes owned) (notes_bytes notes),
    length-note_bytes owned,
    length-notes_bytes notes,
  )

  read_owned_note-note_bytes :
      (sh : ℕ) (owned : OwnedNoteWitness F) (rest : List ℕ)
      → NoteFits sh owned
      → read_owned_note sh (note_bytes owned ++ rest) ≡ ok (owned, rest)
  unfolding read_owned_note note_bytes
  read_owned_note-note_bytes sh owned rest (i, p) =
      let id : List ℕ = fr_to_be_32 owned.note_id in
      let place : List ℕ = be_bytes 4 owned.leaf_index in
      let path : List ℕ = path_bytes owned.within_shard_siblings in
      rw
        (
          append_assoc (id ++ place) path rest ∙ append_assoc id place (path ++ rest),
          read_field-fr_to_be_32 owned.note_id (place ++ (path ++ rest)),
          read_u32_at_cursor-be_bytes owned.leaf_index (path ++ rest) i,
        )
        (read_tail sh owned.note_id owned.leaf_index owned.within_shard_siblings rest p)

  pub read_owned-notes_bytes :
      (sh : ℕ) (notes : List (OwnedNoteWitness F)) (rest : List ℕ)
      → All (NoteFits sh) notes
      → read_owned sh (length notes) (notes_bytes notes ++ rest) ≡ ok (notes, rest)
  unfolding read_owned notes_bytes
  read_owned-notes_bytes sh [] rest h = refl
  read_owned-notes_bytes sh (owned ∷ notes) rest (p, h) = rw (
    append_assoc (note_bytes owned) (notes_bytes notes) rest,
    read_owned_note-note_bytes sh owned (notes_bytes notes ++ rest) p,
    read_owned-notes_bytes sh notes rest h,
  )

  read_path_ok :
      (sh flag : ℕ) (bytes : List ℕ) {path : Option (List F)} {rest : List ℕ}
      → All IsByte bytes
      → read_path sh flag bytes ≡ ok (path, rest)
      → PathFits sh path × (flag ∷ 0 ∷ 0 ∷ 0 ∷ bytes ≡ path_bytes path ++ rest)
  unfolding read_path path_bytes
  read_path_ok sh flag bytes {path} {rest} b h = elim (Bool-cases (flag == 0)) [
    | inl empty ↦
        let k = rw empty at h in
        let e : (none, bytes) ≡ (path, rest) = (cc) in
        subst
          (λ (q : Option (List F) × List ℕ).
            PathFits sh q.0 × (flag ∷ 0 ∷ 0 ∷ 0 ∷ bytes ≡ path_bytes q.0 ++ q.1))
          e (tt, ap (λ f. f ∷ 0 ∷ 0 ∷ 0 ∷ bytes) (==→eq flag 0 empty))
    | inr other ↦
        let k = rw other at h in
        elim (Bool-cases (flag == 1)) [
          | inr bad ↦ let k' = rw bad at k in cc
          | inl full ↦
              let k' = rw full at k in
              let ((siblings, rest'), read, k'') = >>=-ok _ (read_fields bytes sh) k' in
              let (cut, count) = read_fields_ok bytes sh b read in
              let e : (some siblings, rest') ≡ (path, rest) = (cc) in
              subst
                (λ (q : Option (List F) × List ℕ).
                  PathFits sh q.0 × (flag ∷ 0 ∷ 0 ∷ 0 ∷ bytes ≡ path_bytes q.0 ++ q.1))
                e (count, ap₂ (λ f (s : List ℕ). f ∷ 0 ∷ 0 ∷ 0 ∷ s) (==→eq flag 1 full) cut)
        ]
  ]

  read_owned_note_ok :
      (sh : ℕ) (bytes : List ℕ) {owned : OwnedNoteWitness F} {rest : List ℕ}
      → All IsByte bytes
      → read_owned_note sh bytes ≡ ok (owned, rest)
      → NoteFits sh owned × (bytes ≡ note_bytes owned ++ rest)
  unfolding read_owned_note note_bytes
  read_owned_note_ok sh bytes {owned} {rest} b h =
      let ((id, rest1), field, h1) = >>=-ok _ (read_field bytes) h in
      let cut1 : bytes ≡ fr_to_be_32 id ++ rest1 = read_field_ok bytes b field in
      let b1 : All IsByte rest1 =
        All-right IsByte (fr_to_be_32 id) rest1 (subst (All IsByte) cut1 b) in
      let ((i, rest2), number, h2) = >>=-ok _ (read_u32_at_cursor rest1) h1 in
      let (cut2, small) = read_u32_at_cursor_ok rest1 b1 number in
      let b2 : All IsByte rest2 =
        All-right IsByte (be_bytes 4 i) rest2 (subst (All IsByte) cut2 b1) in
      let ((flag, rest3), byte, h3) = >>=-ok _ (read_byte truncated_owned_flag rest2) h2 in
      let cut3 : rest2 ≡ flag ∷ rest3 = read_byte_ok truncated_owned_flag rest2 byte in
      let b3 : All IsByte (flag ∷ rest3) = subst (All IsByte) cut3 b2 in
      let ((reserved, rest4), range, h4) =
        >>=-ok _ (ok_or (get_range 3 rest3) (invalid_snapshot truncated_padding)) h3 in
      let (cut4, _) = get_range_ok 3 rest3 (ok_or_ok (get_range 3 rest3) _ range) in
      let b4 : All IsByte rest4 =
        All-right IsByte reserved rest4 (subst (All IsByte) cut4 (b3.1)) in
      let (padding, h5) = ensure-ok (same_bytes reserved (0 ∷ 0 ∷ 0 ∷ [])) _ h4 in
      let zeros : reserved ≡ 0 ∷ 0 ∷ 0 ∷ [] = same_bytes→eq reserved (0 ∷ 0 ∷ 0 ∷ []) padding in
      let ((path, rest5), siblings, h6) = >>=-ok _ (read_path {F = F} sh flag rest4) h5 in
      let (fits, cut5) = read_path_ok sh flag rest4 b4 siblings in
      let e : (record { note_id = id; leaf_index = i; within_shard_siblings = path }, rest5)
          ≡ (owned, rest) =
        (cc) in
      subst (λ (q : OwnedNoteWitness F × List ℕ). NoteFits sh q.0 × (bytes ≡ note_bytes q.0 ++ q.1))
        e
        (
          (small, fits),
          cut1
              ∙ ap (λ (s : List ℕ). fr_to_be_32 id ++ s)
                  (cut2
                    ∙ ap (λ (s : List ℕ). be_bytes 4 i ++ s)
                        (cut3
                          ∙ ap (λ (s : List ℕ). flag ∷ s)
                              (cut4 ∙ ap (λ (s : List ℕ). s ++ rest4) zeros)
                          ∙ cut5))
              ∙ sym (append_assoc (fr_to_be_32 id) (be_bytes 4 i) (path_bytes path ++ rest5))
              ∙ sym (append_assoc (fr_to_be_32 id ++ be_bytes 4 i) (path_bytes path) rest5),
        )

  pub read_owned_ok :
      (sh count : ℕ) (bytes : List ℕ) {notes : List (OwnedNoteWitness F)} {rest : List ℕ}
      → All IsByte bytes
      → read_owned sh count bytes ≡ ok (notes, rest)
      → All (NoteFits sh) notes × (length notes ≡ count) × (bytes ≡ notes_bytes notes ++ rest)
  unfolding read_owned notes_bytes
  read_owned_ok sh zero bytes {notes} {rest} b h =
      let e : ([], bytes) ≡ (notes, rest) = (cc) in
      subst
        (λ (q : List (OwnedNoteWitness F) × List ℕ).
          All (NoteFits sh) q.0 × (length q.0 ≡ zero) × (bytes ≡ notes_bytes q.0 ++ q.1))
        e (tt, refl, refl)
  read_owned_ok sh (suc count) bytes {notes} {rest} b h =
      let ((owned, rest1), one, h1) = >>=-ok _ (read_owned_note sh bytes) h in
      let (fits, cut) = read_owned_note_ok sh bytes b one in
      let b1 : All IsByte rest1 =
        All-right IsByte (note_bytes owned) rest1 (subst (All IsByte) cut b) in
      let ((more, rest2), others, h2) = >>=-ok _ (read_owned sh count rest1) h1 in
      let (all, total, cut') = read_owned_ok sh count rest1 b1 others in
      let e : (owned ∷ more, rest2) ≡ (notes, rest) = (cc) in
      subst
        (λ (q : List (OwnedNoteWitness F) × List ℕ).
          All (NoteFits sh) q.0 × (length q.0 ≡ suc count) × (bytes ≡ notes_bytes q.0 ++ q.1))
        e
        (
          (fits, all),
          ap suc total,
          cut
              ∙ ap (λ (s : List ℕ). note_bytes owned ++ s) cut'
              ∙ sym (append_assoc (note_bytes owned) (notes_bytes more) rest2),
        )
