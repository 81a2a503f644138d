-- ===== src/Merkle/Tree.antt =====
-- merkle.rs, module `test`: Merkle trees, their roots, and proofs made from them by coin tosses.
-- What `rand::random` returns is a stream that the caller gives.
use substrate_scaffold.Prelude.{
  ℕ, zero, suc, Bool, Option, none, some, List, [], ◌∷◌, ◌++◌, reverse, ltb, if◌then◌else◌,
}
use substrate_scaffold.Hasher.{Digest, Hash, FromOutput, hash_pairs, from_preimage}
use substrate_scaffold.Merkle.{ProofElement, left, right}

pub data MTree (O : Type 0) : Type 0 where
  leaf : O → MTree O
  tee : MTree O → MTree O → MTree O

infixl 5 ◌>>=◌
abbrev ◌>>=◌ {ℓ κ} : {A : Type ℓ} {B : Type κ} → Option A → (A → Option B) → Option B
none >>= f = none
some a >>= f = f a

-- The tree of a depth, and how far into the stream of leaves it reaches. `none` stands for the
-- panic of `debug_assert!`, which the recursive calls make too.
unfoldable pub generate : {O : Type 0} → (ℕ → O) → ℕ → ℕ → Option (MTree O × ℕ)
generate random zero i = some (leaf (random i), suc i)
generate random (suc d) i =
    let children = do (l, j) ← generate random d i; (r, k) ← generate random d j; some (tee l r, k)
    in if ltb (suc d) 36 then children else none

module _ {O : Type 0} (d : Digest) ⦃h : Hash O⦄ ⦃f : FromOutput d O⦄ where
  unfoldable pub root_hash : MTree O → O
  root_hash (leaf x) = (from_preimage {O = O} d x).hash
  root_hash (tee l r) = (from_preimage {P = O × O} {O = O} d (root_hash l, root_hash r)).hash

  -- The inner function of `random_proof`; each call takes one toss of the coin, and what it
  -- pushes comes behind what `ret` holds.
  unfoldable pub rp : MTree O → (ℕ → Bool) → List (ProofElement O) → List (ProofElement O) × O
  unfolding root_hash
  rp (leaf x) coin ret = (ret, x)
  rp (tee l r) coin ret =
      let to_left = rp l (λ n. coin (suc n)) (ret ++ right (root_hash r) ∷ []) in
      let to_right = rp r (λ n. coin (suc n)) (ret ++ left (root_hash l) ∷ []) in
      if coin 0 then to_left else to_right

  unfoldable pub random_proof : MTree O → (ℕ → Bool) → List (ProofElement O) × O
  unfolding rp
  random_proof t coin = let (ret, x) = rp t coin [] in (reverse ret, x)
