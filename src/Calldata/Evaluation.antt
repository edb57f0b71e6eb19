-- ===== src/Calldata/Evaluation.antt =====
-- `calldata_evaluation`, Horner's rule from the last word on, is the polynomial of the words.
use rs_core.Prelude.{ℕ, zero, suc, ◌≡◌, refl, sym, ap, ap₂, ◌∙◌, List, [], ◌∷◌, ◌++◌}
use rs_core.Bytes.{reverse}
use rs_core.Calldata.{FrHash, horner, calldata_evaluation}

-- What the rule needs of the field.
pub record RingLaws (F : Type 0) ⦃hash : FrHash F⦄ : Type 0 where
  pub one : F
  pub add_comm : (a b : F) → hash.add a b ≡ hash.add b a
  pub mul_assoc : (a b c : F) → hash.mul (hash.mul a b) c ≡ hash.mul a (hash.mul b c)
  pub mul_one : (a : F) → hash.mul a one ≡ a
  pub zero_mul : (a : F) → hash.mul hash.zero a ≡ hash.zero
  pub add_mul : (a b c : F) → hash.mul (hash.add a b) c ≡ hash.add (hash.mul a c) (hash.mul b c)

module _ {F : Type 0} ⦃hash : FrHash F⦄ (ring : RingLaws F) where
  unfoldable pub power : F → ℕ → F
  power x zero = ring.one
  power x (suc n) = hash.mul (power x n) x

  -- `word_i · x^i + word_(i+1) · x^(i+1) + …`
  unfoldable pub terms : F → ℕ → List F → F
  terms x i [] = hash.zero
  terms x i (word ∷ words) = hash.add (hash.mul word (power x i)) (terms x (suc i) words)

  horner-append :
      (x acc : F) (xs ys : List F) → horner x acc (xs ++ ys) ≡ horner x (horner x acc xs) ys
  unfolding horner
  horner-append x acc [] ys = refl
  horner-append x acc (word ∷ xs) ys = horner-append x (hash.add (hash.mul acc x) word) xs ys

  terms-shift :
      (x : F) (i : ℕ) (words : List F) → terms x (suc i) words ≡ hash.mul (terms x i words) x
  unfolding terms power
  terms-shift x i [] = sym (ring.zero_mul x)
  terms-shift x i (word ∷ words) =
      ap₂ hash.add (sym (ring.mul_assoc word (power x i) x)) (terms-shift x (suc i) words)
      ∙ sym (ring.add_mul (hash.mul word (power x i)) (terms x (suc i) words) x)

  -- Under the laws of a ring, the evaluation of words at `x` is the sum of each word times `x` to
  -- the power of its place.
  pub calldata_evaluation-terms :
      (words : List F) (x : F) → calldata_evaluation words x ≡ terms x 0 words
  unfolding calldata_evaluation terms power reverse horner
  calldata_evaluation-terms [] x = refl
  calldata_evaluation-terms (word ∷ words) x =
      horner-append x hash.zero (reverse words) (word ∷ [])
      ∙ ap (λ t. hash.add (hash.mul t x) word) (calldata_evaluation-terms words x)
      ∙ ap (λ t. hash.add t word) (sym (terms-shift x 0 words))
      ∙ ring.add_comm (terms x (suc zero) words) word
      ∙ ap (λ t. hash.add t (terms x (suc zero) words)) (sym (ring.mul_one word))
