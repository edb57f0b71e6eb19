-- ===== src/Assoc.antt =====
-- Maps as association lists: `HashMap` and, with the keys in order, `BTreeMap`, as
-- crates/core/src/imt.rs uses them. The order in which a hash map is walked is that of the list,
-- one of those the source leaves open.
use rs_core.Prelude.{
  ℕ, ◌≡◌, refl, Bool, true, false, List, [], ◌∷◌, Option, none, some, ltb, leb, ◌==◌, arith,
  if◌then◌else◌, Bool-cases, inl, inr,
}

abbrev pub is_key : {K : Type 0} → Discrete K → K → K → Bool
is_key eq a b = elim (eq a b) [ yes _ ↦ true | no _ ↦ false ]

module _ {K V : Type 0} (eq : Discrete K) where
  unfoldable pub find : List (K × V) → K → Option V
  find [] x = none
  find ((k, v) ∷ m) x = if is_key eq x k then some v else find m x

  -- `insert` replaces the value of a key that is there.
  unfoldable pub insert : List (K × V) → K → V → List (K × V)
  insert [] x w = (x, w) ∷ []
  insert ((k, v) ∷ m) x w = if is_key eq x k then (x, w) ∷ m else (k, v) ∷ insert m x w

  unfoldable pub remove : List (K × V) → K → List (K × V)
  remove [] x = []
  remove ((k, v) ∷ m) x = if is_key eq x k then remove m x else (k, v) ∷ remove m x

-- `BTreeMap<usize, V>`
module _ {V : Type 0} where
  unfoldable pub find_at : List (ℕ × V) → ℕ → Option V
  find_at [] x = none
  find_at ((k, v) ∷ m) x = if x == k then some v else find_at m x

  unfoldable pub insert_at : List (ℕ × V) → ℕ → V → List (ℕ × V)
  insert_at [] x w = (x, w) ∷ []
  insert_at ((k, v) ∷ m) x w =
      if x == k
      then (x, w) ∷ m
      else if ltb x k
      then (x, w) ∷ (k, v) ∷ m
      else (k, v) ∷ insert_at m x w

  unfoldable pub remove_at : List (ℕ × V) → ℕ → List (ℕ × V)
  remove_at [] x = []
  remove_at ((k, v) ∷ m) x = if x == k then remove_at m x else (k, v) ∷ remove_at m x

  -- The values of `range(low..)`.
  unfoldable pub values_from : List (ℕ × V) → ℕ → List V
  values_from [] low = []
  values_from ((k, v) ∷ m) low = if leb low k then v ∷ values_from m low else values_from m low

  pub find_at-insert_at :
      (m : List (ℕ × V)) (k x : ℕ) (v : V)
      → find_at (insert_at m k v) x ≡ (if x == k then some v else find_at m x)
  unfolding find_at insert_at
  find_at-insert_at [] k x v = refl
  find_at-insert_at ((j, w) ∷ m) k x v = ground (arith, find_at-insert_at m k x v)

  pub find_at-remove_at :
      (m : List (ℕ × V)) (k x : ℕ)
      → find_at (remove_at m k) x ≡ (if x == k then none else find_at m x)
  unfolding find_at remove_at
  find_at-remove_at [] k x = ground arith
  find_at-remove_at ((j, w) ∷ m) k x = ground (arith, find_at-remove_at m k x)

-- A predicate on every entry.
abbrev pub All : {A : Type 0} → (A → Type 0) → List A → Type 0
All P [] = Unit
All P (a ∷ xs) = P a × All P xs

module _ {K V : Type 0} (eq : Discrete K) (P : K × V → Type 0) where
  pub All-find : (m : List (K × V)) (x : K) {v : V} → All P m → find eq m x ≡ some v → P (x, v)
  unfolding find
  All-find [] x h e = cc
  All-find ((k, w) ∷ m) x {v = v} (p, h) e =
      elim (eq x k)
          as (λ d.
            (if (elim d [ yes _ ↦ true | no _ ↦ false ]) then some w else find eq m x) ≡ some v
            → P (x, v)) [
              | yes q ↦ λ e'. let w-eq : w ≡ v = ground (arith, e') in rw (q, ← w-eq) p
              | no n ↦ λ e'. All-find m x h e'
            ]
        e

  pub All-insert : (m : List (K × V)) (x : K) (v : V) → All P m → P (x, v) → All P (insert eq m x v)
  unfolding insert
  All-insert [] x v h p = (p, tt)
  All-insert ((k, w) ∷ m) x v (q, h) p = elim (Bool-cases (is_key eq x k)) [
    | inl e ↦ rw e (p, h)
    | inr e ↦ rw e (q, All-insert m x v h p)
  ]

  pub All-remove : (m : List (K × V)) (x : K) → All P m → All P (remove eq m x)
  unfolding remove
  All-remove [] x h = tt
  All-remove ((k, w) ∷ m) x (q, h) = elim (Bool-cases (is_key eq x k)) [
    | inl e ↦ rw e (All-remove m x h)
    | inr e ↦ rw e (q, All-remove m x h)
  ]
