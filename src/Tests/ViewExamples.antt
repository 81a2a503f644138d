-- ===== src/Tests/ViewExamples.antt =====
-- The theorems about what can be seen of the storage, at the calls of the two administrators; and
-- about the balances of a genesis.
use substrate_scaffold.Prelude.{ℕ, ◌↔◌, ◌≡◌, refl, List, [], ◌∷◌}
use substrate_scaffold.Anchors.{
  suspend_leaf_call, State, create_anchor_call, revoke_anchor_call, dispatch, DispatchError, other,
}
use substrate_scaffold.Anchors.Ledger.{ledger_of}
use substrate_scaffold.Anchors.Observation.{
  Move, make, seal, outcomes, ledger_of-Alike, outcomes-Alike,
}
use substrate_scaffold.Result.{err}
use substrate_scaffold.Anchors.Refusals.{Refusal, dispatch-Refusal}
use substrate_scaffold.Anchors.Lifecycle.{here, next, call, Reach}
use substrate_scaffold.Anchors.Permanence.{u64_max, genesis}
use substrate_scaffold.Tests.Toy.{chain}
use mathlib.Core.List.{Permᴰ}
use substrate_scaffold.Anchors.Orders.{Signed, results, alone, block, block-Permᴰ}
use substrate_scaffold.ChainSpec.{development}
use substrate_scaffold.Runtime.Endowment.{IsFunded, genesis-IsFunded}
use substrate_scaffold.Tests.Scene.{doc, ua, ub, admins, proof, root, anchored, program}
use substrate_scaffold.Tests.KeyExamples.{toy_keys, dev_genesis, genesis_development}

-- The state after a call that is refused.
abbrev refused : State chain
refused = (dispatch chain ub (create_anchor_call admins root) anchored).1

abbrev taken : DispatchError ℕ
taken = other "The root has already been anchored."

abbrev history : List (Move chain)
history =
    make ua (revoke_anchor_call admins root proof)
    ∷ seal
    ∷ make ub (create_anchor_call admins root)
    ∷ []

unchanged : ledger_of chain anchored ≡ ledger_of chain refused
unfolding program
unchanged = refl

dispatch-Refusal_example :
    ((dispatch chain ub (create_anchor_call admins root) anchored).0 ≡ err taken)
    ↔ Refusal chain ub (create_anchor_call admins root) (ledger_of chain anchored) taken
dispatch-Refusal_example = dispatch-Refusal chain ub (create_anchor_call admins root) anchored taken

outcomes-Alike_example : outcomes chain history anchored ≡ outcomes chain history refused
outcomes-Alike_example =
    outcomes-Alike chain history anchored refused (ledger_of-Alike chain anchored refused unchanged)

genesis-IsFunded_example : IsFunded toy_keys 4 dev_genesis
genesis-IsFunded_example = genesis-IsFunded toy_keys development genesis_development

abbrev posted_history :
    Reach chain
      (genesis chain 1)
      (dispatch chain ub (create_anchor_call admins root) (genesis chain 1)).1
posted_history = next here (call ub (create_anchor_call admins root) (genesis chain 1))

abbrev revoking : Signed chain
revoking = (ua, revoke_anchor_call admins root proof)

abbrev suspending : Signed chain
suspending = (ub, suspend_leaf_call admins doc proof u64_max)

block-Permᴰ_example :
    (results chain (revoking ∷ suspending ∷ []) anchored
      ≡ alone chain anchored (revoking ∷ suspending ∷ []))
    × (results chain (suspending ∷ revoking ∷ []) anchored
        ≡ alone chain anchored (suspending ∷ revoking ∷ []))
    × (ledger_of chain (block chain (revoking ∷ suspending ∷ []) anchored)
        ≡ ledger_of chain (block chain (suspending ∷ revoking ∷ []) anchored))
block-Permᴰ_example =
    block-Permᴰ chain anchored (Permᴰ.swap {l = []} refl refl) ((λ e. cc (e), tt), (tt, tt))
