-- ===== src/Tests/RuntimeExamples.antt =====
-- The theorems about the whole runtime, at a toy node that imports a block.
use substrate_scaffold.Prelude.{◌⊎◌, arith, Option, ◌≢◌, true, ℕ, ◌≡◌, refl, some, [], ◌∷◌}
use substrate_scaffold.Anchors.{
  AnchorKey, LeafKey, Call, create_anchor_call, leaf_suspended_by, revoked, not_revoked,
  lookup_anchor, revoke_anchor_call, suspend_leaf_call,
}
use substrate_scaffold.Anchors.Lifecycle.{MayBecome, MayExtend, anchor_at, suspension_at}
use substrate_scaffold.Anchors.Permanence.{u64_max}
use substrate_scaffold.Runtime.{runtime}
use substrate_scaffold.Runtime.Calls.{
  sudo_as_call, system_call, anchors_call, sudo_call, outer_dispatch,
}
use substrate_scaffold.Runtime.Reaching.{sudo-keeps}
use substrate_scaffold.Runtime.Api.{apply_extrinsic, Block, execute_block}
use substrate_scaffold.Runtime.Blocks.{
  Override, NodeReach, start, after, imported, NodeReach-lasting,
}
use substrate_scaffold.Runtime.Finality.{revocation_final, suspension_final}
use substrate_scaffold.Result.{ok}
use substrate_scaffold.Tests.Toy.{block_of, Output, toy, chain}
use substrate_scaffold.Tests.ToyNode.{quiet, Toys, toys, Extrinsic, toy_executive}
use substrate_scaffold.Tests.Scene.{ub, program, ua, admins, proof, root, doc, anchored}
use substrate_scaffold.Tests.MemberExamples.{dropped, suspended}

abbrev node : Toys
node = record { pallet = anchored; rest = quiet }

abbrev revoking : Call (runtime toy)
revoking = revoke_anchor_call admins root proof

-- A block with one call of the first administrator.
abbrev block_with : Call (runtime toy) → Block ℕ Extrinsic
block_with c = record { header = 2; extrinsics = (ua, anchors_call c) ∷ [] }

abbrev revoked_node : Toys
revoked_node = record { pallet = record dropped { block_number = 2 }; rest = quiet }

abbrev suspended_node : Toys
suspended_node = record { pallet = record suspended { block_number = 2 }; rest = quiet }

import_revocation : NodeReach toy_executive node revoked_node
unfolding program execute_block outer_dispatch
import_revocation = after start (imported (block_with revoking) refl)

-- The theorems except some uses of the sudo key for a reason. By `sudo` with a call of System it
-- undoes a revocation, and by `sudo_as` with a call of the pallet it revokes for a member.
restored :
    lookup_anchor chain
      (outer_dispatch chain toys (sudo_call (system_call anchored)) ua revoked_node).1.pallet
      admins
      root
    ≡ some (not_revoked 1)
unfolding program outer_dispatch
restored = refl

revoked_as :
    lookup_anchor chain
      (outer_dispatch chain toys
        (sudo_as_call (block_of 1) (anchors_call revoking))
        ua
        node).1.pallet
      admins
      root
    ≡ some revoked
unfolding program outer_dispatch
revoked_as = refl

sudo-keeps_example :
    (outer_dispatch chain toys (sudo_call (anchors_call revoking)) ua node).1.pallet ≡ anchored
sudo-keeps_example = sudo-keeps chain toys (anchors_call revoking) ua node tt

NodeReach-lasting_example :
    (((k : AnchorKey (runtime toy))
        → MayBecome (anchor_at chain anchored k) (anchor_at chain revoked_node.pallet k))
      × ((k : LeafKey (runtime toy))
          → MayExtend (suspension_at chain anchored k) (suspension_at chain revoked_node.pallet k)))
    ⊎ Override toy_executive import_revocation
NodeReach-lasting_example = NodeReach-lasting toy_executive import_revocation

-- The extrinsics of an account.
abbrev by : Option Output → Call (runtime toy) → Extrinsic
by who c = (who, anchors_call c)

abbrev suspending : Call (runtime toy)
suspending = suspend_leaf_call admins doc proof u64_max

abbrev posting : Call (runtime toy)
posting = create_anchor_call admins root

revocation_applied : (apply_extrinsic toy_executive (by ua revoking) node).0 ≡ ok (ok tt)
unfolding program apply_extrinsic outer_dispatch
revocation_applied = refl

suspension_applied : (apply_extrinsic toy_executive (by ua suspending) node).0 ≡ ok (ok tt)
unfolding program apply_extrinsic outer_dispatch
suspension_applied = refl

revocation_final_example :
    let u = (apply_extrinsic toy_executive (by ua revoking) node).1 in
    ((lookup_anchor chain u.pallet admins root ≡ some revoked)
      × ((apply_extrinsic toy_executive (by ub posting) u).0 ≢ ok (ok tt)))
    ⊎ ⊥
revocation_final_example =
    revocation_final toy_executive (by ua revoking) (by ub posting) admins root proof posting node
      (apply_extrinsic toy_executive (by ua revoking) node).1 start refl revocation_applied refl
      refl

suspension_final_example :
    let u = (apply_extrinsic toy_executive (by ua suspending) node).1 in
    ((leaf_suspended_by chain u.pallet admins doc 5 ≡ true)
      × ((apply_extrinsic toy_executive (by ub (suspend_leaf_call admins doc proof 5)) u).0
          ≢ ok (ok tt)))
    ⊎ ⊥
suspension_final_example =
    suspension_final toy_executive (by ua suspending) (by ub (suspend_leaf_call admins doc proof 5))
      admins doc proof proof 5 node (apply_extrinsic toy_executive (by ua suspending) node).1 start
      refl suspension_applied refl (omega arith)
