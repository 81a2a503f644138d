-- ===== src/Merkle/Bounds.antt =====
-- merkle.rs: the shape of the trees that `generate` makes, the length of proofs, and how many
-- leaves proofs of a bounded length can serve.
use Prim.Native.Nat.{zero-le}
use native.Mathlib.Decide.{dec_lt}
use native.Mathlib.Nat.{pow-suc, add_assoc}
use substrate_scaffold.Prelude.{
  ℕ, zero, suc, ◌+◌, ◌^◌, ◌≤◌, ◌<◌, ◌≡◌, refl, Bool, true, false, none, some, length,
  length-reverse, lt→ltb, le→not-ltb, ◌⊎◌, inl, inr, arith,
}
use substrate_scaffold.Hasher.{Digest, Hash, FromOutput}
use substrate_scaffold.Merkle.Tree.{MTree, leaf, tee, generate, random_proof}
use substrate_scaffold.Merkle.Climb.{toss, siblings, random_proof-siblings}

abbrev pub leaves : {O : Type 0} → MTree O → ℕ
leaves (leaf x) = 1
leaves (tee l r) = leaves l + leaves r

abbrev pub nodes : {O : Type 0} → MTree O → ℕ
nodes (leaf x) = 1
nodes (tee l r) = suc (nodes l + nodes r)

-- Every leaf stands at the depth `n`.
abbrev pub IsPerfect : {O : Type 0} → ℕ → MTree O → Type 0
IsPerfect zero (leaf x) = Unit
IsPerfect zero (tee l r) = ⊥
IsPerfect (suc n) (leaf x) = ⊥
IsPerfect (suc n) (tee l r) = IsPerfect n l × IsPerfect n r

pow_twice : (n : ℕ) → 2 ^ suc n ≡ 2 ^ n + 2 ^ n
pow_twice n = omega (arith, pow-suc 2 n)

pub leaves-IsPerfect :
    {O : Type 0} (n : ℕ) (t : MTree O)
    → IsPerfect n t
    → (leaves t ≡ 2 ^ n) × (suc (nodes t) ≡ 2 ^ suc n)
leaves-IsPerfect zero (leaf x) p = (refl, refl)
leaves-IsPerfect zero (tee l r) p = absurd p
leaves-IsPerfect (suc n) (leaf x) p = absurd p
leaves-IsPerfect (suc n) (tee l r) p =
    omega
      (arith, leaves-IsPerfect n l p.0, leaves-IsPerfect n r p.1, pow_twice n, pow_twice (suc n))

grown :
    {O : Type 0} (random : ℕ → O) (d i : ℕ)
    → d < 36
    → (t : MTree O) × (generate random d i ≡ some (t, i + 2 ^ d)) × IsPerfect d t
unfolding generate
grown random zero i h = (leaf (random i), ground arith, tt)
grown random (suc d) i h =
    let (l, el, pl) = grown random d i (omega arith) in
    let (r, er, pr) = grown random d (i + 2 ^ d) (omega arith) in
    (tee l r, rw (lt→ltb (suc d) 36 h, el, er, pow_twice d, add_assoc), (pl, pr))

too_deep : {O : Type 0} (random : ℕ → O) (d i : ℕ) → 36 ≤ d → generate random d i ≡ none
unfolding generate
too_deep random zero i h = absurd (omega arith)
too_deep random (suc d) i h = rw (le→not-ltb (suc d) 36 h)

-- Below the depth 36, `generate` returns a tree with every leaf at that depth, which has
-- 2 ^ depth leaves and 2 ^ (depth + 1) - 1 nodes and takes one random value for each leaf. From
-- 36 on it panics.
pub generate-IsPerfect :
    {O : Type 0} (random : ℕ → O) (d i : ℕ)
    → ((d < 36)
        × ((t : MTree O) × (generate random d i ≡ some (t, i + leaves t))
            × IsPerfect d t
            × (leaves t ≡ 2 ^ d)
            × (suc (nodes t) ≡ 2 ^ suc d)))
      ⊎ ((36 ≤ d) × (generate random d i ≡ none))
generate-IsPerfect random d i = elim (dec_lt d 36) [
  | yes h ↦
      let (t, e, p) = grown random d i h in
      let (m, n) = leaves-IsPerfect d t p in inl (h, (t, rw m e, p, m, n))
  | no h ↦ inr (omega arith, too_deep random d i (omega arith))
]

module _ {O : Type 0} (d : Digest) ⦃h : Hash O⦄ ⦃f : FromOutput d O⦄ where
  leaves-le-pow :
      (n : ℕ) (t : MTree O)
      → ((coin : ℕ → Bool) → length (siblings d t coin) ≤ n)
      → leaves t ≤ 2 ^ n
  leaves-le-pow zero (leaf x) p = omega arith
  leaves-le-pow zero (tee l r) p = absurd (omega (arith, p (λ n. true)))
  leaves-le-pow (suc n) (leaf x) p = omega (arith, leaves-le-pow n (leaf x) (λ _. zero-le))
  leaves-le-pow (suc n) (tee l r) p = omega (
    arith,
    pow_twice n,
    leaves-le-pow n l (λ coin. omega (arith, p (toss true coin))),
    leaves-le-pow n r (λ coin. omega (arith, p (toss false coin))),
  )

  length-random_proof :
      (t : MTree O) (coin : ℕ → Bool)
      → length (random_proof d t coin).0 ≡ length (siblings d t coin)
  length-random_proof t coin =
      rw (random_proof-siblings d t coin) (length-reverse (siblings d t coin))

  -- If no proof that a tree makes is longer than `n`, the tree has at most 2 ^ n leaves.
  leaves-le :
      (n : ℕ) (t : MTree O)
      → ((coin : ℕ → Bool) → length (random_proof d t coin).0 ≤ n)
      → leaves t ≤ 2 ^ n
  leaves-le n t p = leaves-le-pow n t (λ coin. omega (arith, length-random_proof t coin, p coin))
