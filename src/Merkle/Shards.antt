-- ===== src/Merkle/Shards.antt =====
-- A tree cut at a height: the roots of the subtrees below are the leaves of the tree above.
use rs_core.Prelude.{
  ℕ, zero, suc, ◌+◌, ◌*◌, ◌/◌, ◌^◌, ◌<◌, ◌≡◌, refl, ap, ap₂, ◌∙◌, fun_ext, List, [], ◌∷◌, ◌++◌,
  arith, length, get_or,
}
use rs_core.Prelude.Halves.{pow_double, half-div_pow}
use rs_core.Field.{Fr}
use rs_core.Merkle.{padded, pairs, subtree, merkle_path, other}

pub get_or-append_right {ℓ} :
    {A : Type ℓ} (xs ys : List A) (i j : ℕ) (d : A)
    → j ≡ length xs + i
    → get_or (xs ++ ys) j d ≡ get_or ys i d
get_or-append_right [] ys i j d e = let k : j ≡ i = omega arith in rw k
get_or-append_right (x ∷ xs) ys i zero d e = absurd (omega arith)
get_or-append_right (x ∷ xs) ys i (suc j) d e = get_or-append_right xs ys i j d (omega arith)

module _ {F : Type 0} ⦃fr : Fr F⦄ where
  pub subtree_cut :
      (d sh cd : ℕ) (f : ℕ → F) → d ≡ sh + cd → subtree d f 0 ≡ subtree cd (λ j. subtree sh f j) 0
  unfolding subtree
  subtree_cut d zero cd f e = let k : d ≡ cd = omega arith in rw k
  subtree_cut zero (suc sh) cd f e = absurd (omega arith)
  subtree_cut (suc d) (suc sh) cd f e = subtree_cut d sh cd (pairs f) (omega arith)

  pub merkle_path_cut :
      (d sh cd : ℕ) (f : ℕ → F) (i : ℕ)
      → d ≡ sh + cd
      → merkle_path d f i ≡ merkle_path sh f i ++ merkle_path cd (λ j. subtree sh f j) (i / 2 ^ sh)
  unfolding merkle_path subtree
  merkle_path_cut d zero cd f i e =
      let k : d ≡ cd = omega arith in let one : i / 1 ≡ i = omega arith in rw (k, one)
  merkle_path_cut zero (suc sh) cd f i e = absurd (omega arith)
  merkle_path_cut (suc d) (suc sh) cd f i e =
      ap (λ t. f (other i) ∷ t)
        (merkle_path_cut d sh cd (pairs f) (i / 2) (omega arith) ∙ rw (half-div_pow i sh))

  pub subtree_window :
      (r : ℕ) (f : ℕ → F) (q : ℕ) → subtree r f q ≡ subtree r (λ i. f (q * 2 ^ r + i)) 0
  unfolding subtree
  subtree_window zero f q = ap f (omega arith)
  subtree_window (suc r) f q =
      subtree_window r (pairs f) q
      ∙ ap (λ g. subtree r g 0)
          (fun_ext (λ i.
            ap₂ fr.poseidon (ap f (omega (arith, ap (λ (p : ℕ). q * p) (pow_double r))))
              (ap f (omega (arith, ap (λ (p : ℕ). q * p) (pow_double r))))))

  pub merkle_path_window :
      (r : ℕ) (f : ℕ → F) (q w : ℕ)
      → w < 2 ^ r
      → merkle_path r f (q * 2 ^ r + w) ≡ merkle_path r (λ i. f (q * 2 ^ r + i)) w
  unfolding merkle_path other
  merkle_path_window zero f q w h = refl
  merkle_path_window (suc r) f q w h =
      ap₂ (λ a t. a ∷ t) (ap f (omega (arith, ap (λ (p : ℕ). q * p) (pow_double r))))
        (ap (λ j. merkle_path r (pairs f) j) (omega (arith, ap (λ (p : ℕ). q * p) (pow_double r)))
          ∙ merkle_path_window r (pairs f) q (w / 2) (omega (arith, pow_double r))
          ∙ ap (λ g. merkle_path r g (w / 2))
              (fun_ext (λ i.
                ap₂ fr.poseidon (ap f (omega (arith, ap (λ (p : ℕ). q * p) (pow_double r))))
                  (ap f (omega (arith, ap (λ (p : ℕ). q * p) (pow_double r)))))))

  -- The nodes of shard `q` are those of its own leaves.
  pub padded_window :
      (done live : List F) (z : F)
      → (λ i. padded (done ++ live) z (length done + i)) ≡ padded live z
  padded_window done live z =
      fun_ext (λ i. get_or-append_right done live i (length done + i) z refl)
