-- ===== src/Indexed/Map.antt =====
-- The reverse index of `IndexedMerkleTree`, a `HashMap<Fr, usize>`, as a function; and what it says
-- of a list of leaves.
use rs_core.Prelude.{
  ℕ, suc, ◌+◌, ◌<◌, ◌≡◌, refl, ◌∙◌, fun_ext, List, [], ◌∷◌, ◌++◌, Option, none, some, Bool, true,
  false, not, ◌&&◌, arith, length, get_or, if◌then◌else◌, Bool-cases, inl, inr, append_assoc,
  append-nil,
}
use rs_core.Field.{Fr, same}
use rs_core.Proof.Paths.{same_refl, eq_of_same}

abbrev pub Index : Type 0 → Type 0
Index F = F → Option ℕ

module _ {F : Type 0} ⦃fr : Fr F⦄ where
  pub no_index : Index F
  no_index x = none

  pub put : Index F → F → ℕ → Index F
  put m k i x = if same x k then some i else m x

  pub remove : Index F → F → Index F
  remove m k x = if same x k then none else m x

  abbrev pub contains_key : Index F → F → Bool
  contains_key m k = elim (m k) [ some _ ↦ true | none ↦ false ]

  -- The place of each leaf, the first of them numbered `n`.
  pub index_from : ℕ → List F → Index F
  index_from n [] x = none
  index_from n (y ∷ ys) x = if same x y then some n else index_from (n + 1) ys x

  abbrev pub index_of : List F → Index F
  index_of leaves = index_from 0 leaves

  abbrev pub contains : List F → F → Bool
  contains [] x = false
  contains (y ∷ ys) x = if same x y then true else contains ys x

  -- No leaf of the second list is one of the first or stands twice.
  unfoldable pub fresh : List F → List F → Bool
  fresh seen [] = true
  fresh seen (x ∷ xs) = not (contains seen x) && fresh (seen ++ (x ∷ [])) xs

  pub no_index_lem : no_index ≡ index_of []
  unfolding no_index index_from
  no_index_lem = refl

  pub contains_key-index_from :
      (n : ℕ) (leaves : List F) (x : F) → contains_key (index_from n leaves) x ≡ contains leaves x
  unfolding index_from
  contains_key-index_from n [] x = refl
  contains_key-index_from n (y ∷ ys) x = ground (arith, contains_key-index_from (n + 1) ys x)

  pub index_from-append :
      (n : ℕ) (leaves : List F) (leaf x : F)
      → contains leaves leaf ≡ false
      → index_from n (leaves ++ (leaf ∷ [])) x
        ≡ put (index_from n leaves) leaf (n + length leaves) x
  unfolding index_from put
  index_from-append n [] leaf x h = ground arith
  index_from-append n (y ∷ ys) leaf x h =
      ground
        (arith, eq_of_same x y, eq_of_same x leaf, same_refl x, index_from-append (n + 1) ys leaf x)

  -- A place that the index gives holds the leaf.
  pub index_from_sound :
      (n : ℕ) (leaves : List F) (x d : F) (i : ℕ)
      → index_from n leaves x ≡ some i
      → (k : ℕ) × (i ≡ n + k) × (k < length leaves) × (get_or leaves k d ≡ x)
  unfolding index_from
  index_from_sound n [] x d i h = cc
  index_from_sound n (y ∷ ys) x d i h = elim (Bool-cases (same x y)) [
    | inl here ↦ (0, ground arith, omega arith, ground (arith, eq_of_same x y))
    | inr later ↦
        let (k, e, inside, read) = index_from_sound (n + 1) ys x d i (rw later at h) in
        (suc k, omega arith, omega arith, read)
  ]

  -- Every leaf has a place.
  pub index_from_complete :
      (n : ℕ) (leaves : List F) (x : F)
      → contains leaves x ≡ true
      → (i : ℕ) × (index_from n leaves x ≡ some i)
  unfolding index_from
  index_from_complete n [] x h = cc
  index_from_complete n (y ∷ ys) x h = elim (Bool-cases (same x y)) [
    | inl here ↦ (n, rw here)
    | inr later ↦ let (i, e) = index_from_complete (n + 1) ys x (rw later at h) in (i, rw later e)
  ]

  pub contains-append :
      (xs ys : List F) (x : F)
      → contains (xs ++ ys) x ≡ (if contains xs x then true else contains ys x)
  contains-append [] ys x = refl
  contains-append (y ∷ xs) ys x = ground (arith, contains-append xs ys x)

  pub fresh-append :
      (seen xs ys : List F) → fresh seen (xs ++ ys) ≡ fresh seen xs && fresh (seen ++ xs) ys
  unfolding fresh
  fresh-append seen [] ys = rw append-nil
  fresh-append seen (x ∷ xs) ys =
      ground (arith, fresh-append (seen ++ (x ∷ [])) xs ys, append_assoc seen (x ∷ []) xs)

  -- Nothing of a fresh second list is in the first.
  pub fresh_apart :
      (seen xs : List F) (x : F)
      → fresh seen xs ≡ true
      → contains xs x ≡ true
      → contains seen x ≡ false
  unfolding fresh
  fresh_apart seen [] x h k = cc
  fresh_apart seen (y ∷ xs) x h k =
      ground (
        arith,
        eq_of_same x y,
        fresh_apart (seen ++ (y ∷ [])) xs x,
        contains-append seen (y ∷ []) x,
      )

  -- `for leaf in removed { indices.remove(&leaf) }`
  pub remove_all : Index F → List F → Index F
  remove_all m [] = m
  remove_all m (x ∷ xs) = remove_all (remove m x) xs

  remove_all_at :
      (m : Index F) (xs : List F) (x : F)
      → remove_all m xs x ≡ (if contains xs x then none else m x)
  unfolding remove_all remove
  remove_all_at m [] x = refl
  remove_all_at m (y ∷ xs) x = ground (arith, remove_all_at (remove m y) xs x)

  pub index_from_absent :
      (n : ℕ) (leaves : List F) (x : F) → contains leaves x ≡ false → index_from n leaves x ≡ none
  unfolding index_from
  index_from_absent n [] x h = refl
  index_from_absent n (y ∷ ys) x h = ground (arith, index_from_absent (n + 1) ys x)

  index_from_before :
      (n : ℕ) (xs ys : List F) (x : F)
      → contains ys x ≡ false
      → index_from n (xs ++ ys) x ≡ index_from n xs x
  unfolding index_from
  index_from_before n [] ys x h = index_from_absent n ys x h
  index_from_before n (y ∷ xs) ys x h = ground (arith, index_from_before (n + 1) xs ys x)

  -- Removing a fresh tail leaves the index of what is before it.
  pub remove_all-index_of :
      (xs ys : List F) → fresh xs ys ≡ true → remove_all (index_of (xs ++ ys)) ys ≡ index_of xs
  remove_all-index_of xs ys h = fun_ext λ x. elim (Bool-cases (contains ys x)) [
    | inl there ↦
        remove_all_at (index_of (xs ++ ys)) ys x
        ∙ rw (there, index_from_absent 0 xs x (fresh_apart xs ys x h there))
    | inr apart ↦
        remove_all_at (index_of (xs ++ ys)) ys x ∙ rw (apart, index_from_before 0 xs ys x apart)
  ]
