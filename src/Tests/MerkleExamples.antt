-- ===== src/Tests/MerkleExamples.antt =====
-- The theorems about merkle.rs, hasher.rs and the runtime's accounts, at the tree of the two
-- administrators and at short messages.
use substrate_scaffold.Hasher.{hash_triples, hash_quadruples}
use substrate_scaffold.Prelude.{
  ◌++◌, suc, ℕ, ◌^◌, ◌+◌, ◌≤◌, ◌<◌, ◌≡◌, ◌⊎◌, Bool, true, List, [], ◌∷◌, some, none, eq_nat,
  eq_array,
}
use substrate_scaffold.FromAlt.{from_into}
use substrate_scaffold.Hasher.{
  Hashed, from_preimage, prehashed, hash_u8, hash_slice, hash_array8, hash_array32, hash_pairs,
  hash_quadruples,
}
use substrate_scaffold.Hasher.Preimage.{digest_bytes}
use substrate_scaffold.Hasher.Concat.{slice_hash, slices_unseparated}
use substrate_scaffold.Hasher.Fixed.{fixed_array32}
use substrate_scaffold.Merkle.{MerkleRoot, ProofElement, from_root, verify_proof}
use substrate_scaffold.Merkle.Tree.{MTree, generate, root_hash, random_proof}
use substrate_scaffold.Merkle.Completeness.{verify_proof-random_proof}
use substrate_scaffold.Merkle.Extract.{Collision, tree_queries}
use substrate_scaffold.Merkle.Soundness.{proof_queries, verify_proof_sound}
use substrate_scaffold.Merkle.Bounds.{leaves, nodes, IsPerfect, generate-IsPerfect}
use substrate_scaffold.Anchors.{Document}
use substrate_scaffold.Tests.Toy.{toy_digest, Output, into_array}
use substrate_scaffold.Tests.Scene.{tree, to_first}

abbrev first_proof : List (ProofElement Output) × Output
first_proof = random_proof toy_digest tree to_first

abbrev first_leaf : Hashed Document Output
first_leaf = prehashed first_proof.1

abbrev tree_root : MerkleRoot Document Output
tree_root = from_root (root_hash toy_digest tree)

verify_proof-random_proof_example :
    verify_proof toy_digest tree_root first_proof.0 first_leaf ≡ true
verify_proof-random_proof_example = verify_proof-random_proof toy_digest Document tree to_first

verify_proof_sound_example :
    ((coin : ℕ → Bool) × (random_proof toy_digest tree coin ≡ (first_proof.0, first_leaf.hash)))
    ⊎ Collision toy_digest fixed_array32
        (tree_queries toy_digest fixed_array32 tree)
        (proof_queries toy_digest fixed_array32 first_proof.0 first_leaf)
verify_proof_sound_example =
    verify_proof_sound toy_digest fixed_array32 tree first_proof.0 first_leaf
      (verify_proof-random_proof toy_digest Document tree to_first)

generate-IsPerfect_example :
    ((3 < 36)
      × ((t : MTree ℕ) × (generate (λ i. i) 3 0 ≡ some (t, 0 + leaves t))
          × IsPerfect 3 t
          × (leaves t ≡ 2 ^ 3)
          × (suc (nodes t) ≡ 2 ^ 4)))
    ⊎ ((36 ≤ 3) × (generate (λ i. i) 3 0 ≡ none))
generate-IsPerfect_example = generate-IsPerfect (λ i. i) 3 0

abbrev hello : List ℕ
hello = b'h' ∷ b'i' ∷ []

slices_unseparated_example :
    (slice_hash {O = Output} toy_digest hello ≡ digest_bytes toy_digest hello)
    × ((from_preimage {P = List ℕ × List ℕ} {O = Output} toy_digest (hello, hello)).hash
        ≡ slice_hash {O = Output} toy_digest (hello ++ hello))
    × ((from_preimage {P = List ℕ × List ℕ × List ℕ} {O = Output} toy_digest
          (hello, hello, [])).hash
        ≡ slice_hash {O = Output} toy_digest (hello ++ hello ++ []))
    × ((from_preimage {P = List ℕ × List ℕ × List ℕ × List ℕ} {O = Output} toy_digest
          (hello, hello, [], hello)).hash
        ≡ slice_hash {O = Output} toy_digest (hello ++ hello ++ [] ++ hello))
slices_unseparated_example = slices_unseparated toy_digest hello hello [] hello
