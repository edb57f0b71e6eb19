-- ===== src/Frontier/Snapshot/Slots.antt =====
-- The slots of a snapshot: what `encode_snapshot` writes for them and `from_snapshot_bytes` reads.
use mathlib.Core.Path.{subst}
use rs_core.Prelude.{
  ℕ, zero, suc, ◌+◌, ◌/◌, ◌%◌, ◌≡◌, refl, sym, ap, ap₂, ◌∙◌, List, [], ◌∷◌, ◌++◌, Option, none,
  some, Bool, true, false, length, ◌==◌, Bool-cases, inl, inr, append_assoc, ==→eq,
}
use rs_core.Outcome.{
  ok, ◌>>=◌, >>=-ok, ensure-ok, invalid_snapshot, slot_mismatch, truncated_slot_flag,
}
use rs_core.Assoc.{All}
use rs_core.Bytes.{IsByte, All-right}
use rs_core.Wire.{FrInt, fr_to_be_32}
use rs_core.Snapshot.{read_field, read_field_ok, read_field-fr_to_be_32, read_byte}
use rs_core.Field.{Fr}
use rs_core.Frontier.Snapshot.{slot_bytes, slots_bytes, read_slot, read_slots, is_some, agree}

-- A slot is filled exactly if its bit of the leaf count is set.
abbrev pub Matches : {F : Type 0} → List (Option F) → ℕ → Type 0
Matches [] n = Unit
Matches (slot ∷ slots) n = (is_some slot ≡ (n % 2 == 1)) × Matches slots (n / 2)

agree_lem : (a b : Bool) → a ≡ b → agree a b ≡ true
agree_lem true b e = sym e
agree_lem false b e = rw (← e)

agree_ok : (a b : Bool) → agree a b ≡ true → a ≡ b
agree_ok true b e = sym e
agree_ok false true e = cc
agree_ok false false e = refl

module _ {F : Type 0} ⦃fr : Fr F⦄ ⦃int : FrInt F⦄ where
  read_slot-slot_bytes :
      (slot : Option F) (rest : List ℕ)
      → (read_byte truncated_slot_flag (slot_bytes slot ++ rest) >>= λ r. read_slot r.0 r.1)
        ≡ ok (slot, rest)
  unfolding read_slot slot_bytes
  read_slot-slot_bytes none rest = refl
  read_slot-slot_bytes (some x) rest = rw (read_field-fr_to_be_32 x rest)

  pub read_slots-slots_bytes :
      (slots : List (Option F)) (level n occupied : ℕ) (rest : List ℕ)
      → Matches slots occupied
      → read_slots (length slots) level n occupied (slots_bytes slots ++ rest) ≡ ok (slots, rest)
  unfolding read_slots slots_bytes slot_bytes read_slot
  read_slots-slots_bytes [] level n occupied rest m = refl
  read_slots-slots_bytes (none ∷ slots) level n occupied rest (e, m) = rw (
    agree_lem false (occupied % 2 == 1) e,
    read_slots-slots_bytes slots (level + 1) n (occupied / 2) rest m,
  )
  read_slots-slots_bytes (some x ∷ slots) level n occupied rest (e, m) = rw (
    append_assoc (fr_to_be_32 x) (slots_bytes slots) rest,
    read_field-fr_to_be_32 x (slots_bytes slots ++ rest),
    agree_lem true (occupied % 2 == 1) e,
    read_slots-slots_bytes slots (level + 1) n (occupied / 2) rest m,
  )

  read_slot_ok :
      (flag : ℕ) (bytes : List ℕ) {slot : Option F} {rest : List ℕ}
      → All IsByte bytes
      → read_slot flag bytes ≡ ok (slot, rest)
      → flag ∷ bytes ≡ slot_bytes slot ++ rest
  unfolding read_slot slot_bytes
  read_slot_ok flag bytes {slot} {rest} b h = elim (Bool-cases (flag == 0)) [
    | inl empty ↦
        let k = rw empty at h in
        let e : none ≡ slot = (cc) in
        let e' : bytes ≡ rest = (cc) in
        ap₂ (λ x (s : List ℕ). x ∷ s) (==→eq flag 0 empty) e' ∙ ap (λ s. slot_bytes s ++ rest) e
    | inr other ↦
        let k = rw other at h in
        elim (Bool-cases (flag == 1)) [
          | inr bad ↦ let k' = rw bad at k in cc
          | inl full ↦
              let k' = rw full at k in
              let ((x, rest'), one, k'') =
                >>=-ok (λ (r : F × List ℕ). ok (some r.0, r.1)) (read_field bytes) k' in
              let e : some x ≡ slot = (cc) in
              let e' : rest' ≡ rest = (cc) in
              ap₂ (λ y (s : List ℕ). y ∷ s) (==→eq flag 1 full) (read_field_ok bytes b one)
              ∙ ap₂ (λ s (t : List ℕ). slot_bytes s ++ t) e e'
        ]
  ]

  pub read_slots_ok :
      (rounds level n occupied : ℕ) (bytes : List ℕ) {slots : List (Option F)} {rest : List ℕ}
      → All IsByte bytes
      → read_slots rounds level n occupied bytes ≡ ok (slots, rest)
      → (bytes ≡ slots_bytes slots ++ rest) × (length slots ≡ rounds) × Matches slots occupied
  unfolding read_slots slots_bytes
  read_slots_ok zero level n occupied bytes {slots} {rest} b h =
      let e : [] ≡ slots = (cc) in let e' : bytes ≡ rest = (cc) in rw (← e) (e', refl, tt)
  read_slots_ok (suc k) level n occupied [] b h = cc
  read_slots_ok (suc k) level n occupied (flag ∷ bytes) {slots} {rest} (p, b) h =
      let ((slot, rest1), one, h1) = >>=-ok _ (read_slot flag bytes) h in
      let (bit, h2) =
        ensure-ok (agree (is_some slot) (occupied % 2 == 1))
          (invalid_snapshot (slot_mismatch level n)) h1 in
      let ((more, rest2), others, h3) =
        >>=-ok _ (read_slots k (level + 1) n (occupied / 2) rest1) h2 in
      let e : (slot ∷ more, rest2) ≡ (slots, rest) = (cc) in
      let cut : flag ∷ bytes ≡ slot_bytes slot ++ rest1 = read_slot_ok flag bytes b one in
      let b' : All IsByte rest1 =
        All-right IsByte (slot_bytes slot) rest1 (subst (All IsByte) cut (p, b)) in
      let (cut', count, fit) = read_slots_ok k (level + 1) n (occupied / 2) rest1 b' others in
      subst
        (λ (q : List (Option F) × List ℕ).
          (flag ∷ bytes ≡ slots_bytes q.0 ++ q.1) × (length q.0 ≡ suc k) × Matches q.0 occupied)
        e
        (
          cut
              ∙ ap (λ (s : List ℕ). slot_bytes slot ++ s) cut'
              ∙ sym (append_assoc (slot_bytes slot) (slots_bytes more) rest2),
          ap suc count,
          (agree_ok (is_some slot) (occupied % 2 == 1) bit, fit),
        )
