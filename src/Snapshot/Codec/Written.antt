-- ===== src/Snapshot/Codec/Written.antt =====
-- The bytes of the owned notes in a snapshot, as `encode` writes them.
use rs_core.Prelude.{
  ℕ, ◌+◌, ◌*◌, ◌^◌, ◌<◌, ◌≡◌, refl, sym, ap, ◌∙◌, List, [], ◌∷◌, ◌++◌, Option, none, some, arith,
  length, length-append, ltb, ◌==◌, Bool-cases, inl, inr, append_assoc, append-nil, lt→ltb, ltb→lt,
  eq→==, ==→eq,
}
use rs_core.Outcome.{
  TreeError, Outcome, SnapshotFault, ok, ◌>>=◌, ◌>>◌, ensure, ensure-ok, >>=-ok, ok_or,
  invalid_snapshot, truncated_owned_flag, truncated_padding, nonzero_padding, leaf_index_too_wide,
}
use rs_core.Assoc.{All}
use rs_core.Bytes.{be_bytes, length-be_bytes, get_range, get_range-append, same_bytes}
use rs_core.Wire.{FrInt, fr_to_be_32, length-fr_to_be_32}
use rs_core.Sharded.{OwnedNoteWitness}
use rs_core.Snapshot.{
  append_fields_lem, fields_bytes, length-fields_bytes, read_fields-fields_bytes, read_byte,
}
use rs_core.Snapshot.Codec.{fit, append_path, append_owned, read_path}

pub fit_lem : (bound n : ℕ) (fault : SnapshotFault) → n < bound → fit bound n fault ≡ ok n
unfolding fit
fit_lem bound n fault h = rw (lt→ltb n bound h)

pub fit_ok :
    (bound n : ℕ) (fault : SnapshotFault) {m : ℕ} → fit bound n fault ≡ ok m → (n < bound) × (m ≡ n)
unfolding fit
fit_ok bound n fault h = elim (Bool-cases (ltb n bound)) [
  | inl small ↦ let k = rw small at h in (ltb→lt n bound small, (cc))
  | inr big ↦ let k = rw big at h in cc
]

pub read_byte_ok :
    (fault : SnapshotFault) (bytes : List ℕ) {b : ℕ} {rest : List ℕ}
    → read_byte fault bytes ≡ ok (b, rest)
    → bytes ≡ b ∷ rest
read_byte_ok fault [] h = cc
read_byte_ok fault (c ∷ bytes) h = cc

pub ok_or_ok : {A : Type 0} (o : Option A) (e : TreeError) {a : A} → ok_or o e ≡ ok a → o ≡ some a
ok_or_ok none e h = cc
ok_or_ok (some b) e h = cc

-- A frozen path has a sibling for each level of the shard.
abbrev pub PathFits : {F : Type 0} → ℕ → Option (List F) → Type 0
PathFits sh none = Unit
PathFits sh (some siblings) = length siblings ≡ sh

-- A note that a record has room for.
abbrev pub NoteFits : {F : Type 0} → ℕ → OwnedNoteWitness F → Type 0
NoteFits sh owned = (owned.leaf_index < 2 ^ 32) × PathFits sh owned.within_shard_siblings

module _ {F : Type 0} ⦃int : FrInt F⦄ where
  unfoldable pub path_bytes : Option (List F) → List ℕ
  path_bytes none = 0 ∷ 0 ∷ 0 ∷ 0 ∷ []
  path_bytes (some siblings) = 1 ∷ 0 ∷ 0 ∷ 0 ∷ fields_bytes siblings

  unfoldable pub note_bytes : OwnedNoteWitness F → List ℕ
  note_bytes owned =
      (fr_to_be_32 owned.note_id ++ be_bytes 4 owned.leaf_index)
      ++ path_bytes owned.within_shard_siblings

  unfoldable pub notes_bytes : List (OwnedNoteWitness F) → List ℕ
  notes_bytes [] = []
  notes_bytes (owned ∷ notes) = note_bytes owned ++ notes_bytes notes

  append_path_lem :
      (sh : ℕ) (bytes : List ℕ) (path : Option (List F))
      → PathFits sh path
      → append_path sh bytes path ≡ ok (bytes ++ path_bytes path)
  unfolding append_path path_bytes
  append_path_lem sh bytes none h = refl
  append_path_lem sh bytes (some siblings) h = rw (
    eq→== (length siblings) sh h,
    append_fields_lem (bytes ++ (1 ∷ 0 ∷ 0 ∷ 0 ∷ [])) siblings,
    append_assoc bytes (1 ∷ 0 ∷ 0 ∷ 0 ∷ []) (fields_bytes siblings),
  )

  append_path_ok :
      (sh : ℕ) (bytes : List ℕ) (path : Option (List F)) {out : List ℕ}
      → append_path sh bytes path ≡ ok out
      → PathFits sh path
  unfolding append_path
  append_path_ok sh bytes none h = tt
  append_path_ok sh bytes (some siblings) h =
      let (right, _) = ensure-ok (length siblings == sh) _ h in ==→eq (length siblings) sh right

  pub append_owned_lem :
      (sh : ℕ) (bytes : List ℕ) (notes : List (OwnedNoteWitness F))
      → All (NoteFits sh) notes
      → append_owned sh bytes notes ≡ ok (bytes ++ notes_bytes notes)
  unfolding append_owned notes_bytes note_bytes
  append_owned_lem sh bytes [] h = ap ok (sym (append-nil bytes))
  append_owned_lem sh bytes (owned ∷ notes) ((i, p), h) =
      let head : List ℕ = fr_to_be_32 owned.note_id ++ be_bytes 4 owned.leaf_index in
      let tail : List ℕ = path_bytes owned.within_shard_siblings in
      rw
        (
          fit_lem (2 ^ 32) owned.leaf_index leaf_index_too_wide i,
          append_path_lem sh (bytes ++ (fr_to_be_32 owned.note_id ++ be_bytes 4 owned.leaf_index))
              owned.within_shard_siblings p,
        )
        (append_owned_lem sh ((bytes ++ head) ++ tail) notes h
          ∙ ap ok (
              ap (λ (s : List ℕ). s ++ notes_bytes notes) (append_assoc bytes head tail)
              ∙ append_assoc bytes (head ++ tail) (notes_bytes notes)))

  pub append_owned_ok :
      (sh : ℕ) (bytes : List ℕ) (notes : List (OwnedNoteWitness F)) {out : List ℕ}
      → append_owned sh bytes notes ≡ ok out
      → All (NoteFits sh) notes
  unfolding append_owned
  append_owned_ok sh bytes [] h = tt
  append_owned_ok sh bytes (owned ∷ notes) h =
      let (i, fits, h1) = >>=-ok _ (fit (2 ^ 32) owned.leaf_index leaf_index_too_wide) h in
      let (bytes', path, h2) =
        >>=-ok _
          (append_path sh (bytes ++ (fr_to_be_32 owned.note_id ++ be_bytes 4 i))
            owned.within_shard_siblings)
          h1 in
      (
        (
          (fit_ok (2 ^ 32) owned.leaf_index leaf_index_too_wide fits).0,
          append_path_ok sh _ owned.within_shard_siblings path,
        ),
        append_owned_ok sh bytes' notes h2,
      )

  length-path_bytes :
      (path : Option (List F))
      → length (path_bytes path) ≡ 4 + 32 * elim path [ none ↦ 0 | some siblings ↦ length siblings ]
  unfolding path_bytes
  length-path_bytes none = refl
  length-path_bytes (some siblings) = omega (arith, length-fields_bytes siblings)

  pub length-note_bytes :
      (owned : OwnedNoteWitness F)
      → length (note_bytes owned)
        ≡ 40 + 32 * elim owned.within_shard_siblings [ none ↦ 0 | some siblings ↦ length siblings ]
  unfolding note_bytes
  length-note_bytes owned = omega (
    arith,
    length-append (fr_to_be_32 owned.note_id ++ be_bytes 4 owned.leaf_index)
        (path_bytes owned.within_shard_siblings),
    length-append (fr_to_be_32 owned.note_id) (be_bytes 4 owned.leaf_index),
    length-fr_to_be_32 owned.note_id,
    length-be_bytes 4 owned.leaf_index,
    length-path_bytes owned.within_shard_siblings,
  )

  -- What `read_owned_note` reads behind the leaf index.
  abbrev read_rest : ℕ → F → ℕ → List ℕ → Outcome (OwnedNoteWitness F × List ℕ)
  read_rest sh id i bytes = do
    (flag, rest3) ← read_byte truncated_owned_flag bytes
    (reserved, rest4) ← ok_or (get_range 3 rest3) (invalid_snapshot truncated_padding)
    ensure (same_bytes reserved (0 ∷ 0 ∷ 0 ∷ [])) (invalid_snapshot nonzero_padding)
    (path, rest5) ← read_path {F = F} sh flag rest4
    ok (record { note_id = id; leaf_index = i; within_shard_siblings = path }, rest5)

  pub read_tail :
      (sh : ℕ) (id : F) (i : ℕ) (path : Option (List F)) (rest : List ℕ)
      → PathFits sh path
      → read_rest sh id i (path_bytes path ++ rest)
        ≡ ok (record { note_id = id; leaf_index = i; within_shard_siblings = path }, rest)
  unfolding path_bytes get_range same_bytes read_path
  read_tail sh id i none rest p = rw (get_range-append 3 (0 ∷ 0 ∷ 0 ∷ []) rest refl)
  read_tail sh id i (some siblings) rest p = rw (
    get_range-append 3 (0 ∷ 0 ∷ 0 ∷ []) (fields_bytes siblings ++ rest) refl,
    ← p,
    read_fields-fields_bytes siblings rest,
  )
