-- ===== src/Field.antt =====
-- The BN254 scalar field as the trees of crates/core use it. `ark_bn254::Fr` is a third-party
-- type, so the element type, its zero and its equality are parameters. So is the node hash
-- `poseidon(&[left, right])`: the trees ask nothing of it but that it is a function.
use rs_core.Prelude.{Bool, true, false}

pub record Fr (F : Type 0) : Type 0 where
  pub zero : F
  pub poseidon : F → F → F
  pub eq : Discrete F

module _ {F : Type 0} ⦃fr : Fr F⦄ where
  -- `a == b` on field elements
  abbrev pub same : F → F → Bool
  same a b = elim (fr.eq a b) [ yes _ ↦ true | no _ ↦ false ]
