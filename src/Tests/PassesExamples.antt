-- ===== src/Tests/PassesExamples.antt =====
-- The theorems about the tests of merkle.rs, at digests that run.
use substrate_scaffold.Prelude.{
  eq_lists, length, ◌==◌, if◌then◌else◌, ◌++◌, eq_nat, eq_array, ℕ, refl, List, [], ◌∷◌,
}
use substrate_scaffold.FromAlt.{from_into}
use substrate_scaffold.Hasher.{hash_array32, Digest, hash_u8, hash_slice, from_preimage, prehashed}
use substrate_scaffold.Merkle.Scenarios.{blash, expected_once, expected_twice, expected_hello}
use substrate_scaffold.Hasher.Fixed.{fixed_array32}
use substrate_scaffold.Merkle.{right, from_root, merge, expected_root, verify_proof}
use substrate_scaffold.Merkle.Extract.{Collision}
use substrate_scaffold.Merkle.Longer.{hashed_for, verify_proof-longer}
use substrate_scaffold.Merkle.Invalid.{
  given_root, given_proof, given_tail, given_leaf, root_value, stray, blake_leaf, blake_first,
  blake_second,
}
use substrate_scaffold.Tests.Toy.{toy_digest, into_array, Output}

abbrev document : ℕ → List ℕ
document n = n ∷ []

abbrev hashed : ℕ → Output
hashed n = blash toy_digest (document n)

-- A table of the answers that the test expects.
abbrev looked_up : List ℕ → Output
looked_up s =
    if length s == 11
    then expected_hello
    else if length s == 32
    then expected_once
    else expected_twice

abbrev table : Digest
table = record {
  State = List ℕ;
  output_size = 32;
  new = [];
  input = λ s bs. s ++ bs;
  result = looked_up;
  input-nil = toy_digest.input-nil;
  input-append = toy_digest.input-append;
}

-- Tables of the answers that `invalid_proof` expects.
abbrev as_sha : List ℕ → Output
as_sha s = if length s == 32 then expected_once else root_value

abbrev as_blake : List ℕ → Output
as_blake [] = blake_leaf
as_blake (a ∷ s) =
    if length s == 31 then blake_leaf else if a == 250 then blake_first else blake_second

abbrev table_of : (List ℕ → Output) → Digest
table_of answer = record {
  State = List ℕ;
  output_size = 32;
  new = [];
  input = λ s bs. s ++ bs;
  result = answer;
  input-nil = toy_digest.input-nil;
  input-append = toy_digest.input-append;
}

-- All strings have one digest, so that a longer proof is accepted, and there is a collision.
abbrev constant : Digest
constant = table_of (λ s. root_value)

verify_proof-longer_example :
    Collision constant fixed_array32
      (hashed_for constant fixed_array32 given_leaf given_tail)
      (hashed_for constant fixed_array32 given_leaf given_proof)
unfolding verify_proof expected_root merge from_preimage prehashed from_root eq_lists
verify_proof-longer_example =
    verify_proof-longer constant fixed_array32 given_root (right stray) [] given_tail given_leaf
      refl refl
