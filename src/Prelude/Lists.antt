-- ===== src/Prelude/Lists.antt =====
-- Lists measured by native numbers, fixed-size arrays, and what the proofs need of lists.
use Prim.Native.Nat.{ℕ, suc, ◌+◌}
use mathlib.Core.Path.{◌≡◌, refl, ap}
use mathlib.Core.HLevel.{is_prop→PathP}
use mathlib.Core.List.{List, [], ◌∷◌, ◌++◌, reverse, reverse-cons}
use mathlib.Core.Logic.{◌↔◌}
use mathlib.Core.Bool.{Bool, true, false, ◌&&◌}
use native.Mathlib.Nat.{ℕ_set}
use native.Mathlib.Omega.{arith}
use substrate_scaffold.Prelude.Tests.{Eq}

module _ {ℓ} {A : Type ℓ} where
  abbrev pub length : List A → ℕ
  length [] = 0
  length (x ∷ xs) = suc (length xs)

  pub length-append : (xs ys : List A) → length (xs ++ ys) ≡ length xs + length ys
  length-append [] ys = omega arith
  length-append (x ∷ xs) ys = omega (arith, length-append xs ys)

  pub length-reverse : (xs : List A) → length (reverse xs) ≡ length xs
  length-reverse [] = refl
  length-reverse (x ∷ xs) =
      rw (reverse-cons x xs, length-append (reverse xs) (x ∷ []), length-reverse xs) (omega arith)

-- `[A; n]`: a list whose length the type fixes.
pub record Array {ℓ} (A : Type ℓ) (n : ℕ) : Type ℓ where
  pub items : List A
  pub size : length items ≡ n

pub Array-ext {ℓ} : {A : Type ℓ} {n : ℕ} {a b : Array A n} → a.items ≡ b.items → a ≡ b
Array-ext {n} {a} {b} p = λ i. record {
  items = p i;
  size = is_prop→PathP (λ j. length (p j) ≡ n) (λ j. ℕ_set (length (p j)) n) a.size b.size i;
}

-- Element by element, as `PartialEq` of slices and arrays.
unfoldable pub eq_lists {ℓ} : {A : Type ℓ} → (A → A → Bool) → List A → List A → Bool
eq_lists f [] [] = true
eq_lists f [] (y ∷ ys) = false
eq_lists f (x ∷ xs) [] = false
eq_lists f (x ∷ xs) (y ∷ ys) = f x y && eq_lists f xs ys

eq_lists_iff {ℓ} :
    {A : Type ℓ} (e : Eq A) (xs ys : List A) → (eq_lists e.eq xs ys ≡ true) ↔ (xs ≡ ys)
unfolding eq_lists
eq_lists_iff e [] [] = (λ _. refl, λ _. refl)
eq_lists_iff e [] (y ∷ ys) = (λ h. cc, λ h. cc)
eq_lists_iff e (x ∷ xs) [] = (λ h. cc, λ h. cc)
eq_lists_iff e (x ∷ xs) (y ∷ ys) = (
  λ h. ground (arith, e.eq_iff x y, eq_lists_iff e xs ys),
  λ h. ground (arith, e.eq_iff x y, eq_lists_iff e xs ys),
)

pub eq_arrays_iff {ℓ} :
    {A : Type ℓ} {n : ℕ} (e : Eq A) (a b : Array A n)
    → (eq_lists e.eq a.items b.items ≡ true) ↔ (a ≡ b)
eq_arrays_iff e a b = (
  λ h. Array-ext ((eq_lists_iff e a.items b.items).0 h),
  λ h. (eq_lists_iff e a.items b.items).1 (ap (λ c. c.items) h),
)

instance abbrev pub eq_array {ℓ} : {A : Type ℓ} {n : ℕ} ⦃e : Eq A⦄ → Eq (Array A n)
eq_array ⦃e⦄ = record { eq = λ a b. eq_lists e.eq a.items b.items; eq_iff = eq_arrays_iff e }

-- Lists of one length that stand before equal wholes are equal.
pub append-cancel {ℓ} :
    {A : Type ℓ} (a b c d : List A) → length a ≡ length c → a ++ b ≡ c ++ d → (a ≡ c) × (b ≡ d)
append-cancel [] b [] d h p = (refl, p)
append-cancel [] b (y ∷ c) d h p = absurd (omega arith)
append-cancel (x ∷ a) b [] d h p = absurd (omega arith)
append-cancel (x ∷ a) b (y ∷ c) d h p =
    let q = append-cancel a b c d (omega arith) (cc) in (ground arith, q.1)
