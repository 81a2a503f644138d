-- ===== src/Tests/MemberExamples.antt =====
-- The theorems about the runtime's administrators as a tree of accounts, and about what a call
-- depends on, at the calls of the two administrators.
use mathlib.Core.List.{Memᴰ}
use substrate_scaffold.Prelude.{
  length, inl, ◌^◌, ◌≤◌, some, ◌⊎◌, ◌↔◌, ap, ℕ, ◌≡◌, ◌≢◌, refl, List, [], ◌∷◌, arith,
}
use substrate_scaffold.FromAlt.{from_into}
use substrate_scaffold.Merkle.{MerkleRoot, ProofElement}
use substrate_scaffold.Merkle.Tree.{MTree, leaf, tee}
use substrate_scaffold.Result.{ok}
use substrate_scaffold.Storage.{StorageMap, function_map}
use substrate_scaffold.Anchors.{
  not_revoked, create_anchor, lookup_anchor, Call, AnchorKey, LeafKey, Revokable, UnixTimeSeconds,
  State, revoke_anchor, suspend_leaf, dispatch, create_anchor_call, revoke_anchor_call,
}
use substrate_scaffold.Anchors.Effects.{anchor_key_discrete, leaf_key_discrete}
use substrate_scaffold.Anchors.Lifecycle.{Reach, here}
use substrate_scaffold.Anchors.Independence.{nothing, then_call, dispatch-Elsewhere}
use substrate_scaffold.Anchors.Ledger.{
  ledger_of, IsPermitted, recorded, History, dispatch-Ledger, History-iff_Reach,
}
use substrate_scaffold.Anchors.Permanence.{u64_max}
use substrate_scaffold.Anchors.Revocations.{Revocation}
use substrate_scaffold.Runtime.Revokers.{SignedByMember, length-members-le, create_anchor-posted}
use substrate_scaffold.Runtime.{runtime}
use substrate_scaffold.Runtime.Members.{IsMember, members, every_member_can_revoke}
use substrate_scaffold.Tests.Toy.{toy, fresh, chain, block_of, Output}
use substrate_scaffold.Tests.Scene.{
  program, ua, ub, admins, proof, root, doc, anchored, posted_not_revoked,
}

abbrev pub anchors_map : StorageMap (AnchorKey (runtime toy)) (Revokable ℕ)
anchors_map = function_map {V = Revokable ℕ} (anchor_key_discrete (runtime toy))

abbrev pub leaves_map : StorageMap (LeafKey (runtime toy)) UnixTimeSeconds
leaves_map = function_map {V = UnixTimeSeconds} (leaf_key_discrete (runtime toy))

abbrev pub accounts : MTree Output
accounts = tee (leaf (block_of 1)) (leaf (block_of 2))

abbrev pub dropped : State chain
dropped = (revoke_anchor chain ua admins root proof anchored).1

abbrev pub suspended : State chain
suspended = (suspend_leaf chain ua admins doc proof u64_max anchored).1

every_member_can_revoke_example :
    (some_proof : List (ProofElement Output)) × ((revoke_anchor chain ub admins root some_proof
        anchored).0
      ≡ ok tt)
every_member_can_revoke_example =
    every_member_can_revoke toy anchors_map leaves_map accounts ub (block_of 2) root anchored
      (Memᴰ.tail (Memᴰ.head refl)) refl posted_not_revoked

abbrev others : MerkleRoot Output Output
others = record { hash = block_of 0 }

abbrev first_byte : List ℕ → ℕ
first_byte [] = 0
first_byte (b ∷ bs) = b

others_differ : others ≢ admins
unfolding program
others_differ e =
    absurd (omega (arith, ap (λ (m : MerkleRoot Output Output). first_byte m.hash.items) e))

dispatch-Elsewhere_example :
    (dispatch chain ua
      (revoke_anchor_call admins root proof)
      (dispatch chain ub (create_anchor_call others root) anchored).1).0
    ≡ (dispatch chain ua (revoke_anchor_call admins root proof) anchored).0
dispatch-Elsewhere_example =
    dispatch-Elsewhere chain ua (revoke_anchor_call admins root proof)
      (then_call nothing ub (create_anchor_call others root) others_differ)

abbrev posting : Call (runtime toy)
posting = create_anchor_call admins root

dispatch-Ledger_example :
    (IsPermitted chain ub posting (ledger_of chain fresh)
      × ((dispatch chain ub posting fresh).0 ≡ ok tt)
      × (ledger_of chain (dispatch chain ub posting fresh).1
          ≡ recorded chain posting (ledger_of chain fresh)))
    ⊎ ((¬ IsPermitted chain ub posting (ledger_of chain fresh))
        × ((dispatch chain ub posting fresh).0 ≢ ok tt)
        × ((dispatch chain ub posting fresh).1 ≡ fresh))
dispatch-Ledger_example = dispatch-Ledger chain ub posting fresh

History-iff_Reach_example :
    History chain (ledger_of chain fresh) (recorded chain posting (ledger_of chain fresh)) ↔ (
      (t : State chain) × Reach chain fresh t
      × (ledger_of chain t ≡ recorded chain posting (ledger_of chain fresh)))
History-iff_Reach_example =
    History-iff_Reach chain fresh (recorded chain posting (ledger_of chain fresh))

length-members-le_example :
    (length (members toy accounts) ≤ 2 ^ 16)
    × SignedByMember toy anchors_map leaves_map accounts ua proof
unfolding program
length-members-le_example =
    length-members-le toy anchors_map leaves_map accounts ua root doc proof 5 anchored (inl refl)

create_anchor-posted_example :
    ((n : ℕ) × (lookup_anchor chain (create_anchor chain ua admins root anchored).1 admins root
        ≡ some (not_revoked n)))
    ⊎ ((w : Revocation chain admins root anchored anchored) × IsMember toy accounts w.proof
          w.authorized.who)
unfolding program
create_anchor-posted_example =
    create_anchor-posted toy anchors_map leaves_map accounts ua (block_of 1) root posted_not_revoked
      here refl
