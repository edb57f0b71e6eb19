-- ===== src/Bytes.antt =====
-- Byte strings, as Rust's `to_be_bytes`, `from_be_bytes`, `reverse` and slices have them: a byte
-- is a number below 256.
use rs_core.Prelude.{
  ℕ, zero, suc, ◌+◌, ◌*◌, ◌/◌, ◌%◌, ◌^◌, ◌≤◌, ◌<◌, ◌≡◌, refl, sym, ap, ap₂, ◌∙◌, List, [], ◌∷◌,
  ◌++◌, Option, none, some, arith, length, length-append, leb, if◌then◌else◌, take, drop, get_or,
  append-nil, append_assoc, length-take, take-append-drop, drop_all, true, false, Bool, ◌==◌, ◌&&◌,
  Bool-cases, inl, inr, le→leb,
}
use rs_core.Assoc.{All}
use native.Mathlib.Nat.{pow-suc}

abbrev pub IsByte : ℕ → Type 0
IsByte b = b < 256

module _ {A : Type 0} where
  unfoldable pub reverse : List A → List A
  reverse [] = []
  reverse (x ∷ xs) = reverse xs ++ (x ∷ [])

  pub length-reverse : (xs : List A) → length (reverse xs) ≡ length xs
  unfolding reverse
  length-reverse [] = refl
  length-reverse (x ∷ xs) = omega (arith, length-append (reverse xs) (x ∷ []), length-reverse xs)

  reverse-append : (xs ys : List A) → reverse (xs ++ ys) ≡ reverse ys ++ reverse xs
  unfolding reverse
  reverse-append [] ys = sym (append-nil (reverse ys))
  reverse-append (x ∷ xs) ys =
      rw (reverse-append xs ys) (append_assoc (reverse ys) (reverse xs) (x ∷ []))

  pub reverse-reverse : (xs : List A) → reverse (reverse xs) ≡ xs
  unfolding reverse
  reverse-reverse [] = refl
  reverse-reverse (x ∷ xs) =
      rw (reverse-append (reverse xs) (x ∷ [])) (ap (λ t. x ∷ t) (reverse-reverse xs))

  pub All-append : (P : A → Type 0) (xs ys : List A) → All P xs → All P ys → All P (xs ++ ys)
  All-append P [] ys h k = k
  All-append P (x ∷ xs) ys (p, h) k = (p, All-append P xs ys h k)

  pub All-left : (P : A → Type 0) (xs ys : List A) → All P (xs ++ ys) → All P xs
  All-left P [] ys h = tt
  All-left P (x ∷ xs) ys (p, h) = (p, All-left P xs ys h)

  pub All-right : (P : A → Type 0) (xs ys : List A) → All P (xs ++ ys) → All P ys
  All-right P [] ys h = h
  All-right P (x ∷ xs) ys (p, h) = All-right P xs ys h

  pub All-reverse : (P : A → Type 0) (xs : List A) → All P xs → All P (reverse xs)
  unfolding reverse
  All-reverse P [] h = tt
  All-reverse P (x ∷ xs) (p, h) = All-append P (reverse xs) (x ∷ []) (All-reverse P xs h) (p, tt)

  -- `bytes.get(cursor..cursor + n)`, for the bytes from the cursor on: the range, and the bytes
  -- behind it.
  unfoldable pub get_range : ℕ → List A → Option (List A × List A)
  get_range n xs = if leb n (length xs) then some (take n xs, drop n xs) else none

  pub take-append_prefix : (n : ℕ) (xs ys : List A) → length xs ≡ n → take n (xs ++ ys) ≡ xs
  take-append_prefix zero [] ys e = refl
  take-append_prefix zero (x ∷ xs) ys e = absurd (omega arith)
  take-append_prefix (suc n) [] ys e = absurd (omega arith)
  take-append_prefix (suc n) (x ∷ xs) ys e =
      ap (λ t. x ∷ t) (take-append_prefix n xs ys (omega arith))

  pub drop-append_prefix : (n : ℕ) (xs ys : List A) → length xs ≡ n → drop n (xs ++ ys) ≡ ys
  drop-append_prefix zero [] ys e = refl
  drop-append_prefix zero (x ∷ xs) ys e = absurd (omega arith)
  drop-append_prefix (suc n) [] ys e = absurd (omega arith)
  drop-append_prefix (suc n) (x ∷ xs) ys e = drop-append_prefix n xs ys (omega arith)

  pub get_range-append :
      (n : ℕ) (xs ys : List A) → length xs ≡ n → get_range n (xs ++ ys) ≡ some (xs, ys)
  unfolding get_range
  get_range-append n xs ys e =
      rw (le→leb n (length (xs ++ ys)) (omega (arith, length-append xs ys)))
        (ap₂ (λ a b. some (a, b)) (take-append_prefix n xs ys e) (drop-append_prefix n xs ys e))

  pub get_range_ok :
      (n : ℕ) (xs : List A) {a b : List A}
      → get_range n xs ≡ some (a, b)
      → (xs ≡ a ++ b) × (length a ≡ n)
  unfolding get_range
  get_range_ok n xs h = elim (Bool-cases (leb n (length xs))) [
    | inl fits ↦
        let e : take n xs ++ drop n xs ≡ xs = take-append-drop n xs in
        let l : length (take n xs) ≡ n = ground (arith, length-take n xs) in
        let k = rw fits at h in (cc, cc)
    | inr short ↦ let k = rw short at h in cc
  ]

unfoldable pub le_bytes : ℕ → ℕ → List ℕ
le_bytes zero n = []
le_bytes (suc k) n = (n % 256) ∷ le_bytes k (n / 256)

unfoldable pub from_le : List ℕ → ℕ
from_le [] = 0
from_le (b ∷ bs) = b + 256 * from_le bs

unfoldable pub be_bytes : ℕ → ℕ → List ℕ
be_bytes k n = reverse (le_bytes k n)

unfoldable pub from_be : List ℕ → ℕ
from_be bs = from_le (reverse bs)

pub pow_byte : (k : ℕ) → 256 ^ suc k ≡ 256 * 256 ^ k
pow_byte k = omega (arith, pow-suc 256 k)

pub length-le_bytes : (k n : ℕ) → length (le_bytes k n) ≡ k
unfolding le_bytes
length-le_bytes zero n = refl
length-le_bytes (suc k) n = ap suc (length-le_bytes k (n / 256))

pub le_bytes-IsByte : (k n : ℕ) → All IsByte (le_bytes k n)
unfolding le_bytes
le_bytes-IsByte zero n = tt
le_bytes-IsByte (suc k) n = (omega arith, le_bytes-IsByte k (n / 256))

pub from_le-le_bytes : (k n : ℕ) → n < 256 ^ k → from_le (le_bytes k n) ≡ n
unfolding from_le le_bytes
from_le-le_bytes zero n h = omega arith
from_le-le_bytes (suc k) n h =
    omega (arith, from_le-le_bytes k (n / 256) (omega (arith, pow_byte k)))

pub from_le-lt : (bs : List ℕ) → All IsByte bs → from_le bs < 256 ^ length bs
unfolding from_le
from_le-lt [] h = omega arith
from_le-lt (b ∷ bs) (p, h) = omega (arith, from_le-lt bs h, pow_byte (length bs))

pub le_bytes-from_le : (bs : List ℕ) → All IsByte bs → le_bytes (length bs) (from_le bs) ≡ bs
unfolding from_le le_bytes
le_bytes-from_le [] h = refl
le_bytes-from_le (b ∷ bs) (p, h) =
    ap₂ (λ x y. x ∷ y) (omega arith)
      (ap (le_bytes (length bs)) (omega arith) ∙ le_bytes-from_le bs h)

pub length-be_bytes : (k n : ℕ) → length (be_bytes k n) ≡ k
unfolding be_bytes
length-be_bytes k n = length-reverse (le_bytes k n) ∙ length-le_bytes k n

pub be_bytes-IsByte : (k n : ℕ) → All IsByte (be_bytes k n)
unfolding be_bytes
be_bytes-IsByte k n = All-reverse IsByte (le_bytes k n) (le_bytes-IsByte k n)

-- Reading back a number that fits `k` bytes.
pub from_be-be_bytes : (k n : ℕ) → n < 256 ^ k → from_be (be_bytes k n) ≡ n
unfolding from_be be_bytes
from_be-be_bytes k n h = rw (reverse-reverse (le_bytes k n)) (from_le-le_bytes k n h)

pub from_be-lt : (bs : List ℕ) → All IsByte bs → from_be bs < 256 ^ length bs
unfolding from_be
from_be-lt bs h = rw (length-reverse bs) at (from_le-lt (reverse bs) (All-reverse IsByte bs h))

pub be_bytes-from_be : (bs : List ℕ) → All IsByte bs → be_bytes (length bs) (from_be bs) ≡ bs
unfolding from_be be_bytes
be_bytes-from_be bs h =
    ap reverse (rw (length-reverse bs) at (le_bytes-from_le (reverse bs) (All-reverse IsByte bs h)))
    ∙ reverse-reverse bs

unfoldable pub same_bytes : List ℕ → List ℕ → Bool
same_bytes [] [] = true
same_bytes [] (y ∷ ys) = false
same_bytes (x ∷ xs) [] = false
same_bytes (x ∷ xs) (y ∷ ys) = (x == y) && same_bytes xs ys

pub same_bytes→eq : (xs ys : List ℕ) → same_bytes xs ys ≡ true → xs ≡ ys
unfolding same_bytes
same_bytes→eq [] [] h = refl
same_bytes→eq [] (y ∷ ys) h = cc
same_bytes→eq (x ∷ xs) [] h = cc
same_bytes→eq (x ∷ xs) (y ∷ ys) h = ground (arith, same_bytes→eq xs ys)

-- The `n` bytes from place `i` on, one by one.
abbrev pub window : ℕ → ℕ → List ℕ → List ℕ
window zero i xs = []
window (suc n) i xs = get_or xs i 0 ∷ window n (i + 1) xs

drop_step : (i : ℕ) (xs : List ℕ) → i < length xs → drop i xs ≡ get_or xs i 0 ∷ drop (suc i) xs
drop_step i [] h = absurd (omega arith)
drop_step zero (x ∷ xs) h = refl
drop_step (suc i) (x ∷ xs) h = drop_step i xs (omega arith)

add_one_left : (i : ℕ) → suc i ≡ i + 1
add_one_left i = omega arith

pub drop-window :
    (n i : ℕ) (xs : List ℕ) → i + n ≤ length xs → drop i xs ≡ window n i xs ++ drop (i + n) xs
drop-window zero i xs h = ap (λ (j : ℕ). drop j xs) (omega arith)
drop-window (suc n) i xs h =
    drop_step i xs (omega arith)
    ∙ ap (λ (s : List ℕ). get_or xs i 0 ∷ s)
        (ap (λ (j : ℕ). drop j xs) (add_one_left i)
          ∙ drop-window n (i + 1) xs (omega arith)
          ∙ ap (λ (j : ℕ). window n (i + 1) xs ++ drop j xs) (omega arith))

length-window : (n i : ℕ) (xs : List ℕ) → length (window n i xs) ≡ n
length-window zero i xs = refl
length-window (suc n) i xs = ap suc (length-window n (i + 1) xs)

pub take-window : (n i : ℕ) (xs : List ℕ) → i + n ≤ length xs → take n (drop i xs) ≡ window n i xs
take-window n i xs h =
    ap (take n) (drop-window n i xs h)
    ∙ take-append_prefix n (window n i xs) (drop (i + n) xs) (length-window n i xs)

pub get_or-IsByte : (xs : List ℕ) (i : ℕ) → All IsByte xs → IsByte (get_or xs i 0)
get_or-IsByte [] i h = omega arith
get_or-IsByte (x ∷ xs) zero (p, h) = p
get_or-IsByte (x ∷ xs) (suc i) (p, h) = get_or-IsByte xs i h

pub window-IsByte : (n i : ℕ) (xs : List ℕ) → All IsByte xs → All IsByte (window n i xs)
window-IsByte zero i xs h = tt
window-IsByte (suc n) i xs h = (get_or-IsByte xs i h, window-IsByte n (i + 1) xs h)

-- Writing back a number read from a range of the bytes.
pub be_bytes-from_be_range :
    (n i : ℕ) (xs : List ℕ)
    → i + n ≤ length xs
    → All IsByte xs
    → be_bytes n (from_be (take n (drop i xs))) ≡ window n i xs
be_bytes-from_be_range n i xs h b =
    ap (λ (s : List ℕ). be_bytes n (from_be s)) (take-window n i xs h)
    ∙ ap (λ (k : ℕ). be_bytes k (from_be (window n i xs))) (sym (length-window n i xs))
    ∙ be_bytes-from_be (window n i xs) (window-IsByte n i xs b)

pub exact_window : (n : ℕ) (xs : List ℕ) → length xs ≡ n → window n 0 xs ≡ xs
exact_window n xs e = sym (
    drop-window n 0 xs (omega arith)
    ∙ ap (λ (s : List ℕ). window n 0 xs ++ s) (drop_all xs (0 + n) (omega arith))
    ∙ append-nil (window n 0 xs))
