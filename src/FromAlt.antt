-- ===== src/FromAlt.antt =====
-- vasaplatsen/runtime/src/revocable_anchors/fromalt.rs: a conversion trait that can stand in a
-- bound, implemented for whatever has `Into`.

-- `A: Into<B>`, of the language's library.
pub record Into {ℓ κ} (A : Type ℓ) (B : Type κ) : Type (ℓ ⊔ κ) where
  pub into : A → B

-- The supertrait `private::Sealed` has no methods, so it has no field.
pub record FromAlt {ℓ κ} (A : Type ℓ) (B : Type κ) : Type (ℓ ⊔ κ) where
  pub from_alt : A → B

-- `impl<A, B> FromAlt<A> for B where A: Into<B>`
instance abbrev pub from_into {ℓ κ} : {A : Type ℓ} {B : Type κ} ⦃i : Into A B⦄ → FromAlt A B
from_into ⦃i⦄ = record { from_alt = λ other. i.into other }
