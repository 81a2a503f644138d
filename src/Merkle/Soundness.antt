-- ===== src/Merkle/Soundness.antt =====
-- merkle.rs: what an accepted proof shows.
use mathlib.Core.List.{reverse-reverse}
use substrate_scaffold.Prelude.{
  ℕ, ◌≡◌, ◌≢◌, sym, ap, ◌∙◌, Bool, true, false, Bool-cases, ◌⊎◌, inl, inr, List, [], ◌∷◌, reverse,
  Eq, ◌==◌,
}
use substrate_scaffold.Hasher.{Digest, Hash, Hashed, FromOutput, hash_pairs, from_preimage}
use substrate_scaffold.Hasher.Fixed.{Fixed}
use substrate_scaffold.Merkle.{
  MerkleRoot, ProofElement, merge, expected_root, verify_proof, from_root,
}
use substrate_scaffold.Merkle.Tree.{MTree, root_hash, random_proof}
use substrate_scaffold.Merkle.Climb.{climb, leaf_hash, random_proof-siblings, expected_root-climb}
use substrate_scaffold.Merkle.Extract.{Collision, tree_queries, climb_queries, extract}

climb-unhashed :
    {O : Type 0} ⦃h : Hash O⦄ (d : Digest) ⦃f : FromOutput d O⦄ (ps : List (ProofElement O))
    (x r : O)
    → ((s : d.State) → f.from_alt (d.result s) ≢ r)
    → climb d ps (leaf_hash d x) ≢ r
unfolding from_preimage merge
climb-unhashed d [] x r unhashed = unhashed _
climb-unhashed d (p ∷ ps) x r unhashed = unhashed _

module _ {T O : Type 0} (d : Digest) ⦃h : Hash O⦄ ⦃f : FromOutput d O⦄ ⦃e : Eq O⦄ where
  -- The root to which a proof leads, with the proof read from the root down.
  pub expected_root-reverse :
      (proof : List (ProofElement O)) (lh : Hashed T O)
      → expected_root d proof lh ≡ climb d (reverse proof) (leaf_hash d lh.hash)
  expected_root-reverse proof lh =
      ap (λ p. expected_root d p lh) (sym (reverse-reverse proof))
      ∙ expected_root-climb d (reverse proof) lh

  -- A proof and a leaf determine the one root for which they are accepted.
  verify_proof-root :
      (r s : MerkleRoot T O) (proof : List (ProofElement O)) (lh : Hashed T O)
      → verify_proof d r proof lh ≡ true
      → verify_proof d s proof lh ≡ true
      → r.hash ≡ s.hash
  unfolding verify_proof
  verify_proof-root r s proof lh p q = sym ((e.eq_iff _ _).0 p) ∙ (e.eq_iff _ _).0 q

  -- The queries of a verification: the strings of bytes that it hashes.
  abbrev pub proof_queries : Fixed h → List (ProofElement O) → Hashed T O → List (List ℕ)
  proof_queries w proof lh = climb_queries d w (reverse proof) lh.hash

  -- A proof that is accepted against the root of a tree is one that the tree makes for that very
  -- leaf, by some tosses of the coin; or else one of the strings hashed for the tree and one of
  -- those hashed by the verification are a collision of the hash function.
  pub verify_proof_sound :
      (w : Fixed h) (t : MTree O) (proof : List (ProofElement O)) (lh : Hashed T O)
      → verify_proof d (from_root (root_hash d t)) proof lh ≡ true
      → ((coin : ℕ → Bool) × (random_proof d t coin ≡ (proof, lh.hash)))
        ⊎ Collision d w (tree_queries d w t) (proof_queries w proof lh)
  unfolding verify_proof from_root
  verify_proof_sound w t proof lh p =
      let led = sym (expected_root-reverse proof lh) ∙ (e.eq_iff _ _).0 p in
      elim (extract d w t (reverse proof) lh.hash led) [
        | inl (coin, met, got) ↦
            inl (coin, rw (random_proof-siblings d t coin, met, got, reverse-reverse))
        | inr c ↦ inr c
      ]

  -- A root that is the output of no hash has no accepted proof of any leaf; so it is with the
  -- default root, if nothing hashes to zeros.
  pub verify_proof-unhashed :
      (root : MerkleRoot T O) (proof : List (ProofElement O)) (lh : Hashed T O)
      → ((s : d.State) → f.from_alt (d.result s) ≢ root.hash)
      → verify_proof d root proof lh ≡ false
  unfolding verify_proof
  verify_proof-unhashed root proof lh unhashed =
      elim (Bool-cases (expected_root d proof lh == root.hash)) [
        | inl h ↦ absurd (
            climb-unhashed d (reverse proof) lh.hash root.hash unhashed
              (sym (expected_root-reverse proof lh) ∙ (e.eq_iff _ _).0 h))
        | inr h ↦ h
      ]
