-- ===== src/Merkle/Climb.antt =====
-- merkle.rs: a proof read from the root down, and the tosses that lead to it.
use mathlib.Core.List.{reverse-cons, foldl-append, append-nil, append_assoc}
use substrate_scaffold.Prelude.{
  ℕ, zero, suc, ◌≡◌, refl, ap, Bool, List, [], ◌∷◌, ◌++◌, foldl, reverse, Bool-cases, inl, inr,
  if◌then◌else◌,
}
use substrate_scaffold.Hasher.{
  Digest, Hash, Hashed, FromOutput, hash_hashed, hash_of_hashed, from_preimage,
}
use substrate_scaffold.Merkle.{ProofElement, left, right, merge, expected_root}
use substrate_scaffold.Merkle.Tree.{MTree, leaf, tee, root_hash, rp, random_proof}

-- A stream of tosses with one more in front.
abbrev pub toss : Bool → (ℕ → Bool) → ℕ → Bool
toss b coin zero = b
toss b coin (suc n) = coin n

-- The leaf that the tosses reach.
abbrev pub reached : {O : Type 0} → MTree O → (ℕ → Bool) → O
reached (leaf x) coin = x
reached (tee l r) coin =
    if coin 0 then reached l (λ n. coin (suc n)) else reached r (λ n. coin (suc n))

module _ {O : Type 0} (d : Digest) ⦃h : Hash O⦄ ⦃f : FromOutput d O⦄ where
  -- The proof is given from the root down.
  abbrev pub climb : List (ProofElement O) → O → O
  climb [] x = x
  climb (p ∷ ps) x = merge d p (climb ps x)

  pub foldl-reverse-climb :
      (ps : List (ProofElement O)) (x : O)
      → foldl (λ y pe. merge d pe y) x (reverse ps) ≡ climb ps x
  foldl-reverse-climb [] x = refl
  foldl-reverse-climb (p ∷ ps) x =
      rw (reverse-cons p ps, foldl-append) (ap (merge d p) (foldl-reverse-climb ps x))

  -- The siblings that the tosses meet, from the root down.
  abbrev pub siblings : MTree O → (ℕ → Bool) → List (ProofElement O)
  siblings (leaf x) coin = []
  siblings (tee l r) coin =
      if coin 0
      then right (root_hash d r) ∷ siblings l (λ n. coin (suc n))
      else left (root_hash d l) ∷ siblings r (λ n. coin (suc n))

  rp-siblings :
      (t : MTree O) (coin : ℕ → Bool) (ret : List (ProofElement O))
      → rp d t coin ret ≡ (ret ++ siblings t coin, reached t coin)
  unfolding rp
  rp-siblings (leaf x) coin ret = rw append-nil
  rp-siblings (tee l r) coin ret = elim (Bool-cases (coin 0)) [
    | inl e ↦ rw (e, rp-siblings l (λ n. coin (suc n)) _, append_assoc)
    | inr e ↦ rw (e, rp-siblings r (λ n. coin (suc n)) _, append_assoc)
  ]

  pub random_proof-siblings :
      (t : MTree O) (coin : ℕ → Bool)
      → random_proof d t coin ≡ (reverse (siblings t coin), reached t coin)
  unfolding random_proof
  random_proof-siblings t coin = rw (rp-siblings t coin [])

  -- The hash of a leaf, which is itself a hash.
  abbrev pub leaf_hash : O → O
  leaf_hash x = (from_preimage {O = O} d x).hash

  -- What `verify_proof` compares with the root.
  pub expected_root-climb :
      {T : Type 0} (ps : List (ProofElement O)) (lh : Hashed T O)
      → expected_root d (reverse ps) lh ≡ climb ps (leaf_hash lh.hash)
  unfolding expected_root from_preimage hash_hashed
  expected_root-climb ps lh = foldl-reverse-climb ps _

  pub climb-siblings :
      (t : MTree O) (coin : ℕ → Bool)
      → climb (siblings t coin) (leaf_hash (reached t coin)) ≡ root_hash d t
  unfolding root_hash merge
  climb-siblings (leaf x) coin = refl
  climb-siblings (tee l r) coin = elim (Bool-cases (coin 0)) [
    | inl e ↦ rw e (rw (climb-siblings l (λ n. coin (suc n)), merge))
    | inr e ↦ rw e (rw (climb-siblings r (λ n. coin (suc n)), merge))
  ]
