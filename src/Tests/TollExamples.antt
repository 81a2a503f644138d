-- ===== src/Tests/TollExamples.antt =====
-- The theorems about the limits and the costs of calls, at a toy node that makes the checks.
use mathlib.Core.List.{Memᴰ}
use substrate_scaffold.Anchors.{lookup_anchor, revoked}
use substrate_scaffold.Runtime.Members.{members}
use substrate_scaffold.Runtime.Extra.{SignedExtra}
use substrate_scaffold.Runtime.Extra.Revoking.{revocation, member_revokes_onchain}
use substrate_scaffold.Tests.MemberExamples.{accounts, anchors_map, leaves_map}
use substrate_scaffold.Prelude.{ℕ, ◌+◌, ◌≡◌, ◌≢◌, ◌⊎◌, refl, some, [], ◌∷◌, Bool, arith, ◌^◌}
use substrate_scaffold.Result.{ok, err}
use substrate_scaffold.Anchors.{revoke_anchor_call, dispatch}
use substrate_scaffold.Anchors.Entries.{ChangesAtMost}
use substrate_scaffold.Runtime.Calls.{anchors_call, outer_dispatch}
use substrate_scaffold.Runtime.Api.{Block, execute_block, apply_extrinsic}
use substrate_scaffold.Runtime.Extra.Capacity.{
  Imports, no_block, then_block, ImportsOverride, Imports-ChangesAtMost,
}
use substrate_scaffold.Runtime.Extra.Fees.{apply_extrinsic-costs}
use substrate_scaffold.Tests.Toy.{toy, chain, Output, block_of, origin_signer}
use substrate_scaffold.Tests.Scene.{
  posted_not_revoked, ub, ua, program, admins, proof, root, anchored,
}
use substrate_scaffold.Tests.MemberExamples.{dropped}
use substrate_scaffold.Tests.TollNode.{Tolls, Extrinsic, toll_executive, pay_from}
use substrate_scaffold.Tests.TollLaws.{toll_signing, toll_applying}

abbrev rich : Output → ℕ
rich a = 2 ^ 60

abbrev node : Tolls
node = record { pallet = anchored; rest = record { weight = 0; funds = rich } }

abbrev revoking : Extrinsic
revoking = record {
  who = ua;
  function = anchors_call (revoke_anchor_call admins root proof);
  tip = 5;
}

abbrev block : Block ℕ Extrinsic
block = record { header = 2; extrinsics = revoking ∷ [] }

abbrev revoked_node : Tolls
revoked_node = record {
  pallet = record dropped { block_number = 2 };
  rest = record { weight = 0; funds = pay_from (block_of 1) 10105 rich };
}

imported_block : execute_block toll_executive block node ≡ some revoked_node
unfolding program execute_block outer_dispatch
imported_block = refl

import_block : Imports toll_applying toll_signing node 1 revoked_node
import_block = then_block no_block block imported_block

Imports-ChangesAtMost_example :
    ChangesAtMost chain 75 anchored revoked_node.pallet
    ⊎ ImportsOverride toll_applying toll_signing import_block
Imports-ChangesAtMost_example = Imports-ChangesAtMost toll_applying toll_signing import_block refl

apply_extrinsic-costs_example :
    let (outcome, after) = apply_extrinsic toll_executive revoking node in
    ((why : Bool) × (outcome ≡ err why) × (after.pallet ≡ anchored) × (after.rest.funds ≡ rich))
    ⊎ ((origin : _) × (origin_signer origin ≡ ok (block_of 1))
        × (outcome ≡ ok (dispatch chain origin (revoke_anchor_call admins root proof) anchored).0)
        × (after.pallet ≡ (dispatch chain origin (revoke_anchor_call admins root proof) anchored).1)
        × (2 ^ 60 ≡ after.rest.funds (block_of 1) + 10105)
        × ((other : Output) → other ≢ block_of 1 → after.rest.funds other ≡ 2 ^ 60))
apply_extrinsic-costs_example =
    apply_extrinsic-costs toll_applying revoking node (block_of 1)
      (record { era = tt; nonce = 0; tip = 5 }) (revoke_anchor_call admins root proof) refl refl
      (omega arith)

second_member : Memᴰ (block_of 2) (members toy accounts)
second_member = Memᴰ.tail (Memᴰ.head refl)

abbrev by_second : Extrinsic
by_second = record {
  who = ub;
  function =
      anchors_call
        (revocation toy anchors_map leaves_map accounts toll_applying second_member root);
  tip = 0;
}

abbrev none_given : SignedExtra (Unit {0})
none_given = record { era = tt; nonce = 0; tip = 0 }

member_revokes_onchain_example :
    let (outcome, after) = apply_extrinsic toll_executive by_second node in
    (outcome ≡ ok (ok tt)) × (lookup_anchor chain after.pallet admins root ≡ some revoked)
member_revokes_onchain_example =
    member_revokes_onchain toy anchors_map leaves_map accounts toll_applying by_second node
      (block_of 2) none_given root second_member refl refl posted_not_revoked
      (record { version_valid = refl; genesis_valid = refl; era_valid = refl; nonce_valid = refl })
      (record {
        weight_left = omega arith;
        length_left = omega arith;
        can_pay = omega arith;
        is_fee = omega arith;
      })
