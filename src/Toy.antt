-- ===== src/Toy.antt =====
-- Small fields for the tests. Their hash collides, as any hash into a finite field does.
use mathlib.Core.Path.{◌≡◌, refl}
use std.HLevel.{Σ_prop_path}
use native.Mathlib.Bridge.{le_prop}
use rs_core.Prelude.{ℕ, ◌+◌, ◌*◌, ◌%◌, ◌<◌, List, [], ◌∷◌, ap, arith}
use rs_core.Prelude.{ℕ_discrete}
use rs_core.Field.{Fr}
use rs_core.Wire.{FrInt, modulus}
use rs_core.Calldata.{FrHash}

abbrev pub toy_hash : ℕ → ℕ → ℕ
toy_hash a b = (3 * a + 5 * b + 1) % 1009

instance abbrev pub toy_field : Fr ℕ
toy_field = record { zero = 0; poseidon = toy_hash; eq = ℕ_discrete }

abbrev pub three_leaves : List ℕ
three_leaves = 10 ∷ 20 ∷ 30 ∷ []

-- The residues below the modulus of the scalar field.
abbrev pub Residue : Type 0
Residue = (n : ℕ) × (n < modulus)

residue-lt : (n : ℕ) → n % modulus < modulus
residue-lt n = omega arith

pub residue : ℕ → Residue
residue n = (n % modulus, residue-lt n)

residue-eq : (a b : Residue) → a.0 ≡ b.0 → a ≡ b
residue-eq a b e = Σ_prop_path (λ n. le_prop) e

residue_discrete : Discrete Residue
residue_discrete a b = elim (ℕ_discrete a.0 b.0) [
  | yes e ↦ yes (residue-eq a b e)
  | no n ↦ no (λ e. n (ap (λ (r : Residue). r.0) e))
]

instance pub residue_field : Fr Residue
residue_field = record {
  zero = residue 0;
  poseidon = λ a b. residue (toy_hash a.0 b.0);
  eq = residue_discrete;
}

from_to : (x : Residue) → residue x.0 ≡ x
unfolding residue
from_to x = residue-eq (residue x.0) x (omega (arith, x.1))

to_from : (n : ℕ) → n < modulus → (residue n).0 ≡ n
unfolding residue
to_from n h = omega arith

to-lt : (x : Residue) → x.0 < modulus
to-lt x = x.1

instance pub residue_int : FrInt Residue
residue_int = record {
  to_int = λ x. x.0;
  from_int = residue;
  to_int-lt = to-lt;
  from_int-to_int = from_to;
  to_int-from_int = to_from;
}

abbrev pub first_or : ℕ → List ℕ → ℕ
first_or d [] = d
first_or d (n ∷ ns) = n

abbrev residue_or : List Residue → Residue
residue_or [] = residue 0
residue_or (x ∷ xs) = x

instance abbrev pub residue_hash : FrHash Residue
residue_hash = record {
  zero = residue 0;
  add = λ a b. residue (a.0 + b.0);
  mul = λ a b. residue (a.0 * b.0);
  from_u64 = residue;
  from_be_bytes_mod = λ bytes. residue (first_or 0 bytes);
  poseidon = residue_or;
  sha256 = λ bytes. bytes;
  keccak256 = λ bytes. bytes;
}

pub residue_first : (m : ℕ) → (residue m).0 ≡ m % modulus
unfolding residue
residue_first m = refl

pub to_int-residue_first : (x : Residue) → residue_int.to_int x ≡ x.0
unfolding residue_int
to_int-residue_first x = refl
