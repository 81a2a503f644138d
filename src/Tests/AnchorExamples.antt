-- ===== src/Tests/AnchorExamples.antt =====
-- The theorems about mod.rs, at the calls of the two administrators.
use mathlib.Core.Logic.{ite}
use substrate_scaffold.Prelude.{ap, ℕ, ◌≡◌, ◌≢◌, List, [], ◌∷◌, some, leb, arith}
use substrate_scaffold.Merkle.{MerkleRoot}
use substrate_scaffold.Anchors.{
  State, revoked, suspend_leaf, lookup_anchor, leaf_suspended_by, create_anchor_call, LeafKey,
}
use substrate_scaffold.Anchors.Effects.{leaf_key_discrete, suspend_leaf-leaf_suspended_by}
use substrate_scaffold.Anchors.Lifecycle.{here, next, call, suspension_at}
use substrate_scaffold.Anchors.Permanence.{u64_max}
use substrate_scaffold.Anchors.Authority.{irrevocable}
use substrate_scaffold.Runtime.{runtime}
use substrate_scaffold.Tests.Toy.{toy, toy_digest, chain, fresh, block_of, Output}
use substrate_scaffold.Tests.Scene.{program, ua, ub, admins, proof, root, doc, anchored, suspend_ok}

abbrev head_byte : List ℕ → ℕ
head_byte [] = 0
head_byte (b ∷ bs) = b

abbrev leaf_key : LeafKey (runtime toy)
leaf_key = (admins, doc)

abbrev zeros : MerkleRoot Output Output
zeros = record { hash = block_of 0 }

abbrev suspended : State chain
suspended = (suspend_leaf chain ua admins doc proof u64_max anchored).1

pub unhashed_zeros : (s : List ℕ) → toy_digest.result s ≢ block_of 0
unhashed_zeros s e = absurd (omega (arith, ap (λ (a : Output). head_byte a.items) e))

irrevocable_example :
    (lookup_anchor chain anchored zeros root ≢ some revoked)
    × (suspension_at chain anchored (zeros, doc) ≡ suspension_at chain fresh (zeros, doc))
unfolding program
irrevocable_example =
    irrevocable chain zeros root doc unhashed_zeros
      (next here (call ub (create_anchor_call admins root) fresh)) (λ e. cc (e))

suspend_leaf-leaf_suspended_by_example :
    (leaf_suspended_by chain suspended admins doc 5
      ≡ ite
          (leaf_key_discrete (runtime toy) leaf_key leaf_key)
          (leb 5 u64_max)
          (leaf_suspended_by chain anchored admins doc 5))
    × (suspended.anchors ≡ anchored.anchors)
    × (suspended.block_number ≡ anchored.block_number)
suspend_leaf-leaf_suspended_by_example =
    suspend_leaf-leaf_suspended_by chain ua admins doc proof u64_max anchored leaf_key 5 suspend_ok
