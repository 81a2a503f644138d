-- ===== src/Tests/Scene.antt =====
-- A set of two administrators, the proof of the first, and the calls that it makes.
use substrate_scaffold.Runtime.{runtime, hash_account_bytes}
use substrate_scaffold.Prelude.{
  Option, ℕ, ◌≡◌, ◌≢◌, refl, Bool, true, List, some, length, eq_lists, eq_discrete, Bool-cases, ◌≤◌,
  arith,
}
use substrate_scaffold.Hasher.{
  Hashed, from_preimage, prehashed, hash_each, hash_hashed, hash_byte, hash_pair,
}
use substrate_scaffold.Merkle.{
  MerkleRoot, ProofElement, from_root, merge, expected_root, verify_proof,
}
use substrate_scaffold.Merkle.Tree.{MTree, leaf, tee, root_hash, rp, random_proof}
use substrate_scaffold.Result.{ok}
use substrate_scaffold.Anchors.{
  Document, State, not_revoked, revoked, create_anchor, revoke_anchor, suspend_leaf, dispatch,
  lookup_anchor, leaf_suspended_by, is_member, hash_account_id,
}
use substrate_scaffold.Anchors.Effects.{anchor_key_discrete, leaf_key_discrete, out_discrete}
use substrate_scaffold.Anchors.Membership.{admins_of, proof_by}
use substrate_scaffold.Anchors.Permanence.{u64_max}
use substrate_scaffold.Tests.Toy.{toy, chain, fresh, block_of, Output}

unfoldable pub program : Unit {0}
unfolding create_anchor revoke_anchor suspend_leaf dispatch lookup_anchor leaf_suspended_by
    is_member hash_account_id hash_account_bytes verify_proof from_root prehashed from_preimage
    hash_each hash_hashed hash_byte hash_pair eq_lists anchor_key_discrete leaf_key_discrete
    out_discrete eq_discrete Bool-cases root_hash rp random_proof merge expected_root
program = tt

abbrev pub ua : Option Output
ua = some (block_of 1)

abbrev pub ub : Option Output
ub = some (block_of 2)

abbrev pub account_hash : ℕ → Output
account_hash n = (hash_account_id (runtime toy) (block_of n)).hash

-- The administrators are the accounts 1 and 2.
abbrev pub tree : MTree Output
tree = tee (leaf (account_hash 1)) (leaf (account_hash 2))

abbrev pub admins : MerkleRoot Output Output
admins = admins_of chain tree

abbrev pub to_first : ℕ → Bool
to_first n = true

abbrev pub proof : List (ProofElement Output)
proof = (proof_by chain tree to_first).0

abbrev pub root : MerkleRoot Document Output
root = record { hash = block_of 7 }

abbrev pub doc : Hashed Document Output
doc = record { hash = block_of 8 }

abbrev pub anchored : State chain
anchored = (create_anchor chain ub admins root fresh).1

pub create_ok : (create_anchor chain ub admins root fresh).0 ≡ ok tt
unfolding program
create_ok = refl

pub revoke_ok : (revoke_anchor chain ua admins root proof anchored).0 ≡ ok tt
unfolding program
revoke_ok = refl

pub suspend_ok : (suspend_leaf chain ua admins doc proof u64_max anchored).0 ≡ ok tt
unfolding program
suspend_ok = refl

pub proof_short : length proof ≤ 16
unfolding program
proof_short = omega arith

pub posted : lookup_anchor chain anchored admins root ≡ some (not_revoked 1)
unfolding program
posted = refl

pub posted_not_revoked : lookup_anchor chain anchored admins root ≢ some revoked
posted_not_revoked e = cc (posted)
