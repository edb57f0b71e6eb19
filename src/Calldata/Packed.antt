-- ===== src/Calldata/Packed.antt =====
-- `bind_calldata_packed` accepts exactly the packed words, and `absorb` has fuel enough.
use rs_core.Prelude.{
  ℕ, zero, suc, ◌*◌, ◌≤◌, ◌<◌, ◌≡◌, refl, sym, ap, ◌∙◌, List, [], ◌∷◌, arith, length, length-drop,
  ltb, false, take, drop, Bool-cases, inl, inr, ◌↔◌, le→ltb,
}
use rs_core.Result.{ok, Result-cases}
use rs_core.Assoc.{All}
use rs_core.Bytes.{IsByte}
use rs_core.Wire.{FrInt}
use rs_core.Wire.Packed.{
  fr_from_be_32_packed, fr_to_be_32_packed, fr_from_be_32_packed_iff, length-fr_to_be_32_packed,
}
use rs_core.Calldata.{
  FrHash, CalldataBinding, max_words, words_per_hash, hash_inputs, absorb, check_word_count,
  calldata_commitment, calldata_challenge, bind_calldata, bind_calldata_packed,
}

module _ {F : Type 0} ⦃hash : FrHash F⦄ where
  absorb_done : (fuel : ℕ) (state : F) → absorb fuel state [] ≡ state
  unfolding absorb
  absorb_done zero state = refl
  absorb_done (suc fuel) state = refl

  -- Any fuel that is not below the number of words absorbs them all.
  pub absorb_fuel :
      (fuel other : ℕ) (state : F) (words : List F)
      → length words ≤ fuel
      → length words ≤ other
      → absorb fuel state words ≡ absorb other state words
  unfolding absorb
  absorb_fuel fuel other state [] h k = absorb_done fuel state ∙ sym (absorb_done other state)
  absorb_fuel zero other state (word ∷ words) h k = absurd (omega arith)
  absorb_fuel (suc fuel) zero state (word ∷ words) h k = absurd (omega arith)
  absorb_fuel (suc fuel) (suc other) state (word ∷ words) h k =
      absorb_fuel fuel other
        (hash.poseidon (hash_inputs state (take words_per_hash (word ∷ words))))
        (drop words_per_hash (word ∷ words)) (omega (arith, length-drop 14 words))
        (omega (arith, length-drop 14 words))

module _ {F : Type 0} ⦃int : FrInt F⦄ ⦃hash : FrHash F⦄ where
  bind_calldata-count :
      (words : List F) {b : CalldataBinding F}
      → bind_calldata words ≡ ok b
      → length words ≤ max_words
  unfolding bind_calldata calldata_commitment check_word_count
  bind_calldata-count [] h = cc
  bind_calldata-count (word ∷ words) h = elim (Bool-cases (ltb max_words (suc (length words)))) [
    | inl many ↦ let k = rw many at h in cc
    | inr few ↦ ground arith
  ]

  -- Words of an admitted number always bind.
  pub bind_calldata-total :
      (words : List F)
      → 0 < length words
      → length words ≤ max_words
      → (b : CalldataBinding F) × (bind_calldata words ≡ ok b)
  unfolding bind_calldata calldata_commitment calldata_challenge check_word_count
  bind_calldata-total [] h k = absurd (omega arith)
  bind_calldata-total (word ∷ words) h k =
      let few : ltb max_words (suc (length words)) ≡ false =
        le→ltb max_words (suc (length words)) k in
      elim (Result-cases {A = CalldataBinding F} (bind_calldata (word ∷ words))) [
        | inl bound ↦ bound
        | inr (e, bad) ↦ let impossible = rw few at bad in cc
      ]

  -- On bytes, `bind_calldata_packed` returns a binding exactly if the bytes are packed words and
  -- the binding is that of the words. So an element at or above the modulus, a length off a
  -- multiple of 32, no words at all and more than 8192 words are all refused.
  pub bind_calldata_packed_iff :
      (bytes : List ℕ) (b : CalldataBinding F)
      → All IsByte bytes
      → (bind_calldata_packed bytes ≡ ok b)
        ↔ ((words : List F) × (fr_to_be_32_packed words ≡ bytes) × (bind_calldata words ≡ ok b))
  unfolding bind_calldata_packed
  bind_calldata_packed_iff bytes b all = (
    λ h. elim (Bool-cases (ltb (max_words * 32) (length bytes))) [
      | inl long ↦ let k = rw long at h in cc
      | inr short ↦
          let k = rw short at h in
          elim (Result-cases {A = List F} (fr_from_be_32_packed bytes)) [
            | inr (e, bad) ↦ let k' = rw bad at k in cc
            | inl (words, good) ↦
                let k' = rw good at k in
                (words, (fr_from_be_32_packed_iff bytes words all).0 good, k')
          ]
    ],
    λ (words, e, h).
        let few : length words ≤ max_words = bind_calldata-count words h in
        let size : length bytes ≡ 32 * length words =
          ap (λ (s : List ℕ). length s) (sym e) ∙ length-fr_to_be_32_packed words in
        rw
          (
            le→ltb (max_words * 32) (length bytes) (omega arith),
            (fr_from_be_32_packed_iff bytes words all).1 e,
          )
          h,
  )
