-- ===== src/SecretField/Reducing.antt =====
-- The reducing decimal parser returns the residue of the number that the text says.
use native.Mathlib.Nat.{pow-le-pow_right, pow-suc, add-mod}
use mathlib.Core.Path.{subst}
use rs_core.Prelude.{
  ℕ, zero, suc, ◌+◌, ◌-◌, ◌*◌, ◌%◌, ◌^◌, ◌≤◌, ◌<◌, ◌≡◌, refl, sym, ap, ap₂, ◌∙◌, Bool, true, false,
  not, ◌&&◌, ◌||◌, List, [], ◌∷◌, ◌++◌, ltb, ◌==◌, if◌then◌else◌, length, length-take, length-drop,
  take, drop, take-append-drop, Bool-cases, inl, inr, arith,
}
use rs_core.Result.{ok, err}
use rs_core.Assoc.{All}
use rs_core.Bytes.{IsByte, All-left, All-right}
use rs_core.Wire.{FrInt, modulus}
use rs_core.Encoding.{digit}
use rs_core.Encoding.Canonical.{Bn254FrError}
use rs_core.Encoding.Decimal.{is_digit, all_digits, decimal_value, large_digit, digit_lem, and_true}
use rs_core.SecretField.{
  Montgomery, add, negate, word_loop, chunk_loop, is_negative, try_fr_from_decimal_bytes,
}
use rs_core.SecretField.Residues.{
  mod-mul_both, retrieve-from_montgomery, retrieve-add, retrieve-negate,
}

all_digits-append : (s t : List ℕ) → all_digits (s ++ t) ≡ all_digits s && all_digits t
all_digits-append [] t = refl
all_digits-append (c ∷ s) t = ground (arith, all_digits-append s t)

decimal_value-append :
    (n : ℕ) (s t : List ℕ) → decimal_value n (s ++ t) ≡ decimal_value (decimal_value n s) t
unfolding decimal_value
decimal_value-append n [] t = refl
decimal_value-append n (c ∷ s) t = decimal_value-append (n * 10 + (c - b'0')) s t

-- Digits behind a number add to the number times a power of ten.
decimal_value-shift :
    (n : ℕ) (s : List ℕ) → decimal_value n s ≡ n * 10 ^ length s + decimal_value 0 s
unfolding decimal_value
decimal_value-shift n [] = omega arith
decimal_value-shift n (c ∷ s) = omega (
  arith,
  decimal_value-shift (n * 10 + (c - b'0')) s,
  decimal_value-shift (0 * 10 + (c - b'0')) s,
  ap (λ (p : ℕ). n * p) (pow-suc 10 (length s)),
)

pow_bound : (k : ℕ) → k ≤ 19 → 10 ^ k ≤ 10 ^ 19
pow_bound k h = pow-le-pow_right {n = 10} (omega arith) {i = k} {j = 19} h

or_step : (invalid d rest : Bool) → ((invalid || not d) || not rest) ≡ (invalid || not (d && rest))
or_step true d rest = refl
or_step false true rest = refl
or_step false false rest = refl

or_false : (b : Bool) → b ≡ (b || false)
or_false true = refl
or_false false = refl

All-drop : (k : ℕ) (s : List ℕ) → All IsByte s → All IsByte (drop k s)
All-drop zero s h = h
All-drop (suc k) [] h = tt
All-drop (suc k) (c ∷ s) (p, h) = All-drop k s h

-- The flag says whether a character was no digit.
word_loop-all_digits :
    (chunk : List ℕ) (word : ℕ) (invalid : Bool)
    → All IsByte chunk
    → (word_loop word invalid chunk).1 ≡ (invalid || not (all_digits chunk))
unfolding word_loop
word_loop-all_digits [] word true all = refl
word_loop-all_digits [] word false all = refl
word_loop-all_digits (c ∷ chunk) word invalid (p, all) =
    word_loop-all_digits chunk ((word * 10 % 2 ^ 64 + digit c) % 2 ^ 64)
      (invalid || ltb 9 (digit c)) all
    ∙ ap (λ (b : Bool). (invalid || b) || not (all_digits chunk)) (large_digit c p)
    ∙ or_step invalid (is_digit c) (all_digits chunk)

-- A word of at most nineteen digits does not wrap.
word_loop-decimal_value :
    (chunk : List ℕ) (word k : ℕ) (invalid : Bool)
    → all_digits chunk ≡ true
    → word < 10 ^ k
    → k + length chunk ≤ 19
    → ((word_loop word invalid chunk).0 ≡ decimal_value word chunk)
      × (decimal_value word chunk < 10 ^ 19)
unfolding word_loop decimal_value
word_loop-decimal_value [] word k invalid d h fits =
    let most : 10 ^ k ≤ 10 ^ 19 = pow_bound k (omega arith) in (refl, omega arith)
word_loop-decimal_value (c ∷ chunk) word k invalid d h fits =
    let (first, others) = and_true (is_digit c) (all_digits chunk) d in
    let small : c - b'0' ≤ 9 = ground arith in
    let says : digit c ≡ c - b'0' = digit_lem c first in
    let next : 10 ^ suc k ≡ 10 ^ k * 10 = pow-suc 10 k in
    let most : 10 ^ suc k ≤ 10 ^ 19 = pow_bound (suc k) (omega arith) in
    let word' : ℕ = word * 10 + (c - b'0') in
    let exact : (word * 10 % 2 ^ 64 + digit c) % 2 ^ 64 ≡ word' = omega arith in
    let (run, bound) =
      word_loop-decimal_value chunk word' (suc k) (invalid || ltb 9 (digit c)) others (omega arith)
        (omega arith) in
    (ap (λ (w : ℕ). (word_loop w (invalid || ltb 9 (digit c)) chunk).0) exact ∙ run, bound)

residue_step :
    (n scale word : ℕ)
    → (n % modulus * (scale % modulus) % modulus + word % modulus) % modulus
      ≡ (n * scale + word) % modulus
residue_step n scale word =
    ap (λ (k : ℕ). (k + word % modulus) % modulus) (mod-mul_both n scale modulus)
    ∙ sym (add-mod (n * scale) word modulus)

module _ {E : Type 0} ⦃form : Montgomery E⦄ where
  -- A round takes the value to that of the digits so far and the chunk's.
  round-retrieve :
      (chunk : List ℕ) (value : E) (n : ℕ) (invalid : Bool)
      → all_digits chunk ≡ true
      → length chunk ≤ 19
      → form.retrieve value ≡ n % modulus
      → form.retrieve (
          add
            (form.mul value (form.new (10 ^ length chunk)))
            (form.new (word_loop 0 invalid chunk).0))
        ≡ decimal_value n chunk % modulus
  round-retrieve chunk value n invalid d few says =
      let scale : ℕ = 10 ^ length chunk in
      let word : ℕ = decimal_value 0 chunk in
      let (run, bound) = word_loop-decimal_value chunk 0 0 invalid d (omega arith) (omega arith) in
      let most : scale ≤ 10 ^ 19 = pow_bound (length chunk) few in
      retrieve-add (form.mul value (form.new scale)) (form.new (word_loop 0 invalid chunk).0)
      ∙ ap₂ (λ (a b : ℕ). (a + b) % modulus)
          (form.retrieve-mul value (form.new scale)
            ∙ ap₂ (λ (a b : ℕ). a * b % modulus) says (form.retrieve-new scale (omega arith)))
          (ap (λ (w : ℕ). form.retrieve (form.new w)) run ∙ form.retrieve-new word (omega arith))
      ∙ residue_step n scale word
      ∙ ap (λ (k : ℕ). k % modulus) (sym (decimal_value-shift n chunk))

  chunk_loop_lem :
      (fuel : ℕ) (digits : List ℕ) (value : E) (invalid : Bool)
      → length digits ≤ fuel
      → All IsByte digits
      → ((chunk_loop fuel value invalid digits).1 ≡ (invalid || not (all_digits digits)))
        × ((n : ℕ)
            → all_digits digits ≡ true
            → form.retrieve value ≡ n % modulus
            → form.retrieve (chunk_loop fuel value invalid digits).0
              ≡ decimal_value n digits % modulus)
  unfolding chunk_loop decimal_value
  chunk_loop_lem zero [] value invalid h all = (or_false invalid, λ n d says. says)
  chunk_loop_lem (suc fuel) [] value invalid h all = (or_false invalid, λ n d says. says)
  chunk_loop_lem zero (c ∷ digits) value invalid h all = absurd (omega arith)
  chunk_loop_lem (suc fuel) (c ∷ digits) value invalid h all =
      let chunk : List ℕ = take 19 (c ∷ digits) in
      let rest : List ℕ = drop 19 (c ∷ digits) in
      let cut : chunk ++ rest ≡ c ∷ digits = take-append-drop 19 (c ∷ digits) in
      let all' : All IsByte (chunk ++ rest) = subst (All IsByte) (sym cut) all in
      let few : length chunk ≤ 19 = omega (arith, length-take 18 digits) in
      let split : all_digits (c ∷ digits) ≡ all_digits chunk && all_digits rest =
        ap all_digits (sym cut) ∙ all_digits-append chunk rest in
      let flag : (word_loop 0 invalid chunk).1 ≡ (invalid || not (all_digits chunk)) =
        word_loop-all_digits chunk 0 invalid (All-left IsByte chunk rest all') in
      let next : E =
        add (form.mul value (form.new (10 ^ length chunk)))
          (form.new (word_loop 0 invalid chunk).0) in
      let (flags, values) =
        chunk_loop_lem fuel rest next (word_loop 0 invalid chunk).1
          (omega (arith, length-drop 18 digits)) (All-right IsByte chunk rest all') in
      (
        flags
            ∙ ap (λ (b : Bool). b || not (all_digits rest)) flag
            ∙ or_step invalid (all_digits chunk) (all_digits rest)
            ∙ ap (λ (b : Bool). invalid || not b) (sym split),
        λ n d says.
            let (d1, d2) = and_true (all_digits chunk) (all_digits rest) (sym split ∙ d) in
            values (decimal_value n chunk) d2 (round-retrieve chunk value n invalid d1 few says)
            ∙ ap (λ (k : ℕ). k % modulus)
                (sym (decimal_value-append n chunk rest)
                  ∙ ap (λ (s : List ℕ). decimal_value n s) cut),
      )

module _ {E F : Type 0} ⦃form : Montgomery E⦄ ⦃int : FrInt F⦄ (into_ark : E → F)
    (kept : (e : E) → int.to_int (into_ark e) ≡ form.retrieve e) where
  same_element : (e : E) (m : ℕ) → form.retrieve e ≡ m → into_ark e ≡ int.from_int m
  same_element e m h = sym (int.from_int-to_int (into_ark e)) ∙ ap int.from_int (kept e ∙ h)

  again : (e : E) → form.retrieve (form.from_montgomery (form.as_montgomery e)) ≡ form.retrieve e
  again e =
      retrieve-from_montgomery form (form.as_montgomery e) (form.as_montgomery-lt e)
      ∙ sym (form.retrieve_lem e)

  signed :
      (negative : Bool) (e : E) (v : ℕ)
      → form.retrieve e ≡ v
      → into_ark (
          form.from_montgomery
            (if negative then form.as_montgomery (negate e) else form.as_montgomery e))
        ≡ int.from_int (if negative then (modulus - v) % modulus else v)
  signed true e v h =
      same_element (form.from_montgomery (form.as_montgomery (negate e))) ((modulus - v) % modulus)
        (again (negate e) ∙ retrieve-negate e ∙ ap (λ (k : ℕ). (modulus - k) % modulus) h)
  signed false e v h = same_element (form.from_montgomery (form.as_montgomery e)) v (again e ∙ h)

  -- On the bytes of a text, with or without a minus, the parser returns the residue of the number
  -- that the digits say, or of its negation, however many digits there are; it refuses a text
  -- without digits or with another character. `into_ark` keeps the element.
  pub try_fr_from_decimal_bytes_lem :
      (s : List ℕ)
      → All IsByte s
      → (let digits = drop (if is_negative s then 1 else 0) s in
          try_fr_from_decimal_bytes into_ark s ≡ (
            if length digits == 0 || not (all_digits digits)
            then err Bn254FrError.invalid_decimal
            else ok (
                int.from_int (
                  if is_negative s
                  then (modulus - decimal_value 0 digits % modulus) % modulus
                  else decimal_value 0 digits % modulus))))
  unfolding try_fr_from_decimal_bytes
  try_fr_from_decimal_bytes_lem s all =
      let digits : List ℕ = drop (if is_negative s then 1 else 0) s in
      let (flag, value) =
        chunk_loop_lem (length digits) digits (form.new 0) false (omega arith)
          (All-drop (if is_negative s then 1 else 0) s all) in
      elim (Bool-cases (length digits == 0)) [
        | inl none_there ↦ rw none_there
        | inr some_there ↦ elim (Bool-cases (all_digits digits)) [
          | inr other ↦ rw (some_there, flag, other)
          | inl d ↦
              let says = value 0 d (form.retrieve-new 0 (omega arith)) in
              rw (some_there, flag, d)
                (ap ok (
                  signed (is_negative s) (chunk_loop (length digits) (form.new 0) false digits).0
                    (decimal_value 0 digits % modulus) says))
        ]
      ]
