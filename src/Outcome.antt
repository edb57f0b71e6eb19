-- ===== src/Outcome.antt =====
-- `TreeError` of crates/core/src/imt.rs and the results of fallible code. A panic (a failed
-- `assert!`, `expect` or index) is a result of its own.
use rs_core.Prelude.{
  ℕ, Option, ◌<◌, ◌≡◌, refl, ◌⊎◌, inl, inr, Bool, true, false, List, if◌then◌else◌, ltb, leb,
  length, get_elem?, set, drop, take, ◌+◌, get_or, get_elem?-get_or, none, some,
}

-- The texts of `InvalidSnapshot`, one constructor for each message.
pub data SnapshotFault : Type 0 where
  cap_live_mismatch : SnapshotFault
  empty_frontier_level : ℕ → SnapshotFault
  too_many_roots : SnapshotFault
  live_not_partial : SnapshotFault
  live_over_capacity : SnapshotFault
  owned_over_capacity : ℕ → ℕ → SnapshotFault
  duplicate_owned : ℕ → SnapshotFault
  no_frozen_path : ℕ → SnapshotFault
  early_frozen_path : ℕ → SnapshotFault
  truncated_u32 truncated_field non_canonical_element : SnapshotFault
  frontier_truncated frontier_magic frontier_reserved : SnapshotFault
  frontier_version : ℕ → SnapshotFault
  frontier_over_capacity frontier_slot_count : ℕ → ℕ → SnapshotFault
  truncated_slot_flag frontier_trailing : SnapshotFault
  slot_flag : ℕ → SnapshotFault
  slot_mismatch : ℕ → ℕ → SnapshotFault
  truncated_header bad_magic reserved_header : SnapshotFault
  unsupported_version : ℕ → SnapshotFault
  depth_too_wide shard_height_too_wide leaf_index_too_wide : SnapshotFault
  too_many_completed too_many_live too_many_owned : SnapshotFault
  size_overflow field_count_overflow field_bytes_overflow owned_bytes_overflow : SnapshotFault
  truncated_root_fields truncated_owned truncated_owned_flag : SnapshotFault
  truncated_padding nonzero_padding trailing_bytes : SnapshotFault
  path_flag : ℕ → SnapshotFault

pub data TreeError : Type 0 where
  invalid_geometry : ℕ → ℕ → TreeError
  capacity_overflow : ℕ → TreeError
  tree_full : ℕ → TreeError
  duplicate_leaf : TreeError
  leaf_not_found : TreeError
  leaf_index_out_of_range : ℕ → ℕ → TreeError
  duplicate_owned_leaf : ℕ → TreeError
  owned_leaf_mismatch : ℕ → TreeError
  note_not_marked : TreeError
  note_already_completed : ℕ → TreeError
  shard_not_completed : ℕ → TreeError
  invalid_sibling_count : ℕ → ℕ → TreeError
  witness_root_mismatch : ℕ → TreeError
  invalid_snapshot : SnapshotFault → TreeError
  rewind_before_completed : ℕ → ℕ → TreeError
  non_canonical_field : TreeError

pub data Outcome {ℓ} (A : Type ℓ) : Type ℓ where
  ok : A → Outcome A
  err : TreeError → Outcome A
  panic : Outcome A

infixl 5 ◌>>=◌ ◌>>◌
abbrev pub ◌>>=◌ {ℓ κ} : {A : Type ℓ} {B : Type κ} → Outcome A → (A → Outcome B) → Outcome B
ok a >>= f = f a
err e >>= f = err e
panic >>= f = panic

abbrev pub ◌>>◌ {ℓ} : {B : Type ℓ} → Outcome (Unit {0}) → Outcome B → Outcome B
m >> k = m >>= λ _. k

-- `if !b { return Err(e) }`
abbrev pub ensure : Bool → TreeError → Outcome (Unit {0})
ensure true e = ok tt
ensure false e = err e

-- `assert!(b)`
abbrev pub assert : Bool → Outcome (Unit {0})
assert true = ok tt
assert false = panic

-- `.expect(…)` and `.unwrap()` of a `Result`
abbrev pub expect {ℓ} : {A : Type ℓ} → Outcome A → Outcome A
expect (ok a) = ok a
expect _ = panic

module _ {ℓ} {A : Type ℓ} where
  -- `xs[i]`, which panics out of bounds
  abbrev pub index : List A → ℕ → Outcome A
  index xs i = elim (get_elem? xs i) [ some x ↦ ok x | none ↦ panic ]

  -- `xs[i] = v`
  abbrev pub write : List A → ℕ → A → Outcome (List A)
  write xs i v = if ltb i (length xs) then ok (set xs i v) else panic

  -- `&xs[i..]`
  abbrev pub slice_from : List A → ℕ → Outcome (List A)
  slice_from xs i = if leb i (length xs) then ok (drop i xs) else panic

  pub index_ok : (xs : List A) (i : ℕ) {x : A} → get_elem? xs i ≡ some x → index xs i ≡ ok x
  index_ok xs i h = rw (h, index)

  pub index-get_or : (xs : List A) (i : ℕ) (d : A) → i < length xs → index xs i ≡ ok (get_or xs i d)
  index-get_or xs i d h = index_ok xs i (get_elem?-get_or xs i d h)

module _ {ℓ} {A : Type ℓ} where
  -- To split on a computed outcome and keep the equation.
  pub Outcome-cases :
      (o : Outcome A) → ((a : A) × (o ≡ ok a)) ⊎ (((e : TreeError) × (o ≡ err e)) ⊎ (o ≡ panic))
  Outcome-cases (ok a) = inl (a, refl)
  Outcome-cases (err e) = inr (inl (e, refl))
  Outcome-cases panic = inr (inr refl)

  -- A chain that ends well: its first step gave a value, and the rest succeeded on that value.
  pub >>=-ok {κ} :
      {B : Type κ} {b : B} (f : A → Outcome B) (first : Outcome A)
      → (first >>= f) ≡ ok b
      → (a : A) × (first ≡ ok a) × (f a ≡ ok b)
  >>=-ok f panic e = cc
  >>=-ok f (err _) e = cc
  >>=-ok f (ok v) e = (v, refl, e)

pub ok_eq {ℓ} : {A : Type ℓ} {a b : A} → ok a ≡ ok b → a ≡ b
ok_eq e = cc

-- A guard that was passed.
pub ensure-ok {κ} :
    {B : Type κ} {b : B} (test : Bool) (e : TreeError) {k : Outcome B}
    → (ensure test e >> k) ≡ ok b
    → (test ≡ true) × (k ≡ ok b)
ensure-ok true e h = (refl, h)
ensure-ok false e h = cc

-- `&xs[i..i + n]`
abbrev pub slice {ℓ} : {A : Type ℓ} → List A → ℕ → ℕ → Outcome (List A)
slice xs i n = if leb (i + n) (length xs) then ok (take n (drop i xs)) else panic

-- `option.ok_or(e)?`
abbrev pub ok_or {ℓ} : {A : Type ℓ} → Option A → TreeError → Outcome A
ok_or none e = err e
ok_or (some a) e = ok a
