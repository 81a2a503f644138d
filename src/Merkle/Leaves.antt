-- ===== src/Merkle/Leaves.antt =====
-- merkle.rs: the leaves of a tree as a list, and the tosses of `random_proof` that reach them.
use mathlib.Core.List.{Memᴰ}
use substrate_scaffold.Hasher.{Digest, Hash, FromOutput}
use mathlib.Core.List.Memᴰ as Mem
use substrate_scaffold.Prelude.{
  length, length-append, ◌^◌, arith, ◌≤◌, if◌then◌else◌, ℕ, zero, suc, ◌≡◌, refl, sym, Bool, true,
  false, List, [], ◌∷◌, ◌++◌, Bool-cases, inl, inr,
}
use substrate_scaffold.Merkle.Tree.{MTree, leaf, tee}
use native.Mathlib.Nat.{pow-suc}
use substrate_scaffold.Merkle.Climb.{toss, reached, siblings}

abbrev pub leaf_list : {A : Type 0} → MTree A → List A
leaf_list (leaf x) = x ∷ []
leaf_list (tee l r) = leaf_list l ++ leaf_list r

-- The tree of the same shape over the images of the leaves.
abbrev pub map_tree : {A B : Type 0} → (A → B) → MTree A → MTree B
map_tree f (leaf x) = leaf (f x)
map_tree f (tee l r) = tee (map_tree f l) (map_tree f r)

pub reached-map_tree :
    {A B : Type 0} (f : A → B) (t : MTree A) (coin : ℕ → Bool)
    → reached (map_tree f t) coin ≡ f (reached t coin)
reached-map_tree f (leaf x) coin = refl
reached-map_tree f (tee l r) coin = elim (Bool-cases (coin 0)) [
  | inl e ↦ rw (e, reached-map_tree f l (λ n. coin (suc n)))
  | inr e ↦ rw (e, reached-map_tree f r (λ n. coin (suc n)))
]

-- Whatever is tossed, a leaf is reached.
pub reached-Memᴰ :
    {A : Type 0} (t : MTree A) (coin : ℕ → Bool) → Memᴰ (reached t coin) (leaf_list t)
reached-Memᴰ (leaf x) coin = Memᴰ.head refl
reached-Memᴰ (tee l r) coin = elim (Bool-cases (coin 0)) [
  | inl e ↦ rw e (Mem.append_left (leaf_list r) (reached-Memᴰ l (λ n. coin (suc n))))
  | inr e ↦ rw e (Mem.append_right (leaf_list l) (reached-Memᴰ r (λ n. coin (suc n))))
]

-- Every leaf is reached by some tosses.
pub Memᴰ-reached :
    {A : Type 0} {a : A} (t : MTree A)
    → Memᴰ a (leaf_list t)
    → (coin : ℕ → Bool) × (reached t coin ≡ a)
Memᴰ-reached (leaf x) m = (λ n. true, sym (Mem.eq_of_singleton m))
Memᴰ-reached (tee l r) m = elim (Mem.append_cases (leaf_list l) m) [
  | inl in_left ↦ let (coin, e) = Memᴰ-reached l in_left in (toss true coin, e)
  | inr in_right ↦ let (coin, e) = Memᴰ-reached r in_right in (toss false coin, e)
]

-- How many siblings the tosses meet.
abbrev pub steps : {A : Type 0} → MTree A → (ℕ → Bool) → ℕ
steps (leaf x) coin = 0
steps (tee l r) coin =
    suc (if coin 0 then steps l (λ n. coin (suc n)) else steps r (λ n. coin (suc n)))

pub steps-map_tree :
    {A B : Type 0} (f : A → B) (t : MTree A) (coin : ℕ → Bool)
    → steps (map_tree f t) coin ≡ steps t coin
steps-map_tree f (leaf x) coin = refl
steps-map_tree f (tee l r) coin =
    rw (steps-map_tree f l (λ n. coin (suc n)), steps-map_tree f r (λ n. coin (suc n)))

pub length-siblings :
    {O : Type 0} (d : Digest) ⦃h : Hash O⦄ ⦃f : FromOutput d O⦄ (t : MTree O) (coin : ℕ → Bool)
    → length (siblings d t coin) ≡ steps t coin
length-siblings d (leaf x) coin = refl
length-siblings d (tee l r) coin = elim (Bool-cases (coin 0)) [
  | inl e ↦ rw (e, length-siblings d l (λ n. coin (suc n)))
  | inr e ↦ rw (e, length-siblings d r (λ n. coin (suc n)))
]

-- The leaves at the depth `n` or above.
abbrev pub within : {A : Type 0} → ℕ → MTree A → List A
within n (leaf x) = x ∷ []
within zero (tee l r) = []
within (suc n) (tee l r) = within n l ++ within n r

pub length-within : {A : Type 0} (n : ℕ) (t : MTree A) → length (within n t) ≤ 2 ^ n
length-within zero (leaf x) = omega arith
length-within zero (tee l r) = omega arith
length-within (suc n) (leaf x) = omega (arith, pow-suc 2 n, length-within n (leaf x))
length-within (suc n) (tee l r) = omega (
  arith,
  pow-suc 2 n,
  length-append (within n l) (within n r),
  length-within n l,
  length-within n r,
)

pub reached-within :
    {A : Type 0} (n : ℕ) (t : MTree A) (coin : ℕ → Bool)
    → steps t coin ≤ n
    → Memᴰ (reached t coin) (within n t)
reached-within n (leaf x) coin h = Memᴰ.head refl
reached-within zero (tee l r) coin h = absurd (omega (arith, h))
reached-within (suc n) (tee l r) coin h = elim (Bool-cases (coin 0)) [
  | inl e ↦
      rw e (Mem.append_left (within n r) (reached-within n l (λ m. coin (suc m)) (ground arith)))
  | inr e ↦
      rw e (Mem.append_right (within n l) (reached-within n r (λ m. coin (suc m)) (ground arith)))
]

pub within-reached :
    {A : Type 0} {a : A} (n : ℕ) (t : MTree A)
    → Memᴰ a (within n t)
    → (coin : ℕ → Bool) × (reached t coin ≡ a) × (steps t coin ≤ n)
within-reached n (leaf x) m = (λ k. true, sym (Mem.eq_of_singleton m), omega arith)
within-reached zero (tee l r) m = elim m [ ]
within-reached (suc n) (tee l r) m = elim (Mem.append_cases (within n l) m) [
  | inl in_left ↦
      let (coin, e, low) = within-reached n l in_left in (toss true coin, e, omega (arith, low))
  | inr in_right ↦
      let (coin, e, low) = within-reached n r in_right in (toss false coin, e, omega (arith, low))
]
