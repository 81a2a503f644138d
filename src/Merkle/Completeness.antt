-- ===== src/Merkle/Completeness.antt =====
-- merkle.rs: the verification of the proofs that a tree makes, which `generate_and_verify_proof`
-- samples.
use substrate_scaffold.Prelude.{ℕ, ◌≡◌, refl, Bool, true, Eq}
use substrate_scaffold.Hasher.{Digest, Hash, FromOutput, prehashed}
use substrate_scaffold.Merkle.{verify_proof, from_root}
use substrate_scaffold.Merkle.Tree.{MTree, root_hash, random_proof}
use substrate_scaffold.Merkle.Climb.{
  siblings, random_proof-siblings, expected_root-climb, climb-siblings,
}

module _ {O : Type 0} (d : Digest) ⦃h : Hash O⦄ ⦃f : FromOutput d O⦄ ⦃e : Eq O⦄ (T : Type 0) where
  -- Whatever the tree and the tosses, `verify_proof` accepts the proof that `random_proof` makes,
  -- for the leaf that it returns, against the tree's root hash.
  pub verify_proof-random_proof :
      (t : MTree O) (coin : ℕ → Bool)
      → let (proof, x) = random_proof d t coin in
        verify_proof d (from_root {T = T} (root_hash d t)) proof (prehashed x) ≡ true
  unfolding verify_proof from_root prehashed
  verify_proof-random_proof t coin =
      rw (random_proof-siblings d t coin, expected_root-climb d (siblings d t coin), climb-siblings)
        ((e.eq_iff _ _).1 refl)
