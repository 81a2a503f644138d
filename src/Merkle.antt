-- ===== src/Merkle.antt =====
-- vasaplatsen/runtime/src/revocable_anchors/merkle.rs: Merkle roots, inclusion proofs and their
-- verification. `Tree` has the reference trees of the file's test module.
pub mod Tree
pub mod Climb
pub mod Leaves
pub mod Extract
pub mod Soundness
pub mod Binding
pub mod Longer
pub mod Bounds
pub mod Completeness
pub mod Scenarios
pub mod Passes
pub mod Invalid
use substrate_scaffold.Prelude.{Bool, List, foldl, Eq, ◌==◌}
use substrate_scaffold.Hasher.{
  Digest, Hash, Hashed, FromOutput, hash_pairs, hash_of_hashed, from_preimage,
}

-- The root of a tree whose leaves are hashes of `T`.
pub record MerkleRoot (T O : Type 0) : Type 0 where
  pub hash : O

unfoldable pub from_root : {T O : Type 0} → O → MerkleRoot T O
from_root hash = record { hash = hash }

-- A sibling on the way from a leaf to the root, and the side on which it stands.
pub data ProofElement (O : Type 0) : Type 0 where
  left : O → ProofElement O
  right : O → ProofElement O

module _ {O : Type 0} (d : Digest) ⦃h : Hash O⦄ ⦃f : FromOutput d O⦄ where
  -- The two hashes in the order in which `merge` takes them.
  abbrev pub sides : ProofElement O → O → O × O
  sides (left x) sibling = (x, sibling)
  sides (right x) sibling = (sibling, x)

  unfoldable pub merge : ProofElement O → O → O
  merge pe sibling = (from_preimage {P = O × O} {O = O} d (sides pe sibling)).hash

  -- The left fold of `verify_proof`: the root that a proof leads to.
  unfoldable pub expected_root : {T : Type 0} → List (ProofElement O) → Hashed T O → O
  unfolding merge
  expected_root {T} proof leafhash =
      let lhh : Hashed (Hashed T O) O = from_preimage d leafhash in
      foldl (λ leaf pe. merge pe leaf) lhh.hash proof

  unfoldable pub verify_proof :
      {T : Type 0} ⦃e : Eq O⦄ → MerkleRoot T O → List (ProofElement O) → Hashed T O → Bool
  unfolding expected_root
  verify_proof root proof leafhash = expected_root proof leafhash == root.hash
