-- ===== src/Tests/Pallet.antt =====
-- The tests of vasaplatsen/runtime/src/revocable_anchors/mod.rs, run on the model.
use substrate_scaffold.Runtime.{hash_account_bytes}
use substrate_scaffold.Prelude.{
  eq_lists, eq_discrete, Bool-cases, Option, ◌≡◌, refl, [], some, none, true, false,
}
use substrate_scaffold.Anchors.{
  is_member, hash_account_id, Document, State, not_revoked, revoked, other, system, create_anchor,
  revoke_anchor, suspend_leaf, lookup_anchor, leaf_suspended_by,
}
use substrate_scaffold.Anchors.Effects.{anchor_key_discrete, leaf_key_discrete, out_discrete}
use substrate_scaffold.Merkle.{verify_proof, MerkleRoot, from_root}
use substrate_scaffold.Hasher.{from_preimage, hash_each, hash_hashed, hash_byte, Hashed, prehashed}
use substrate_scaffold.Result.{ok, err}
use substrate_scaffold.Runtime.Accounts.{blake_hash, blake_bytes}
use substrate_scaffold.Tests.Toy.{toy, chain, fresh, block_of, Output}

abbrev auths : MerkleRoot Output Output
auths = from_root (blake_hash toy (blake_bytes toy (block_of 0).items))

abbrev zeros : {T : Type 0} → MerkleRoot T Output
zeros = from_root (block_of 0)

program : Unit {0}
unfolding create_anchor revoke_anchor suspend_leaf lookup_anchor leaf_suspended_by is_member
    hash_account_id hash_account_bytes verify_proof from_root prehashed from_preimage hash_each
    hash_hashed hash_byte eq_lists anchor_key_discrete leaf_key_discrete out_discrete eq_discrete
    Bool-cases
program = tt

abbrev ua : Option Output
ua = some (block_of 0)

abbrev ub : Option Output
ub = some (block_of 1)

abbrev anchored : State chain
anchored = (create_anchor chain ua auths zeros fresh).1

-- `anchor`
anchor :
    ((create_anchor chain ua zeros zeros fresh).0 ≡ ok tt)
    × (lookup_anchor chain (create_anchor chain ua zeros zeros fresh).1 zeros zeros
        ≡ some (not_revoked 1))
    × ((create_anchor chain ub auths zeros anchored).0
        ≡ err (other "The root has already been anchored."))
    × ((revoke_anchor chain ua zeros zeros [] fresh).0 ≡ err (other "invalid proof"))
    × ((create_anchor chain none zeros zeros fresh).0 ≡ err (system 0))
unfolding program
anchor = (refl, refl, refl, refl, refl)

-- `revoke_anchor`: an anchor is revoked after it is posted or before, once, and not posted then.
revoke :
    (lookup_anchor chain anchored auths zeros ≡ some (not_revoked 1))
    × ((revoke_anchor chain ua auths zeros [] anchored).0 ≡ ok tt)
    × (lookup_anchor chain (revoke_anchor chain ua auths zeros [] anchored).1 auths zeros
        ≡ some revoked)
    × ((create_anchor chain ua auths zeros (revoke_anchor chain ua auths zeros [] fresh).1).0
        ≡ err (other "The root has already been anchored."))
    × ((revoke_anchor chain ua auths zeros [] (revoke_anchor chain ua auths zeros [] fresh).1).0
        ≡ err (other "anchor already revoked"))
    × ((revoke_anchor chain ub auths zeros [] fresh).0 ≡ err (other "invalid proof"))
unfolding program
revoke = (refl, refl, refl, refl, refl, refl)

abbrev doc : Hashed Document Output
doc = record { hash = block_of 0 }

abbrev until_10 : State chain
until_10 = (suspend_leaf chain ua auths doc [] 10 fresh).1

-- `suspend_leaf`: the end is in the suspension, and only a later end replaces it.
suspend :
    (leaf_suspended_by chain fresh auths doc 10 ≡ false)
    × ((suspend_leaf chain ua auths doc [] 10 fresh).0 ≡ ok tt)
    × (leaf_suspended_by chain until_10 auths doc 10 ≡ true)
    × (leaf_suspended_by chain until_10 auths doc 11 ≡ false)
    × ((suspend_leaf chain ua auths doc [] 11 until_10).0 ≡ ok tt)
    × ((suspend_leaf chain ua auths doc [] 10 until_10).0
        ≡ err (other "leaf is already suspended until specified time"))
    × ((suspend_leaf chain ub auths doc [] 0 fresh).0 ≡ err (other "invalid proof"))
unfolding program
suspend = (refl, refl, refl, refl, refl, refl, refl)
