-- ===== src/Runtime/Extra/Revoking.antt =====
-- lib.rs with mod.rs and merkle.rs: that a member of the administrators can revoke on the chain.
use mathlib.Core.List.{Memᴰ}
use substrate_scaffold.Prelude.{inl, inr, ℕ, ◌≡◌, ◌≢◌, ap, ◌∙◌, some, Array}
use substrate_scaffold.Result.{ok}
use substrate_scaffold.Storage.{StorageMap}
use substrate_scaffold.Merkle.{MerkleRoot}
use substrate_scaffold.Merkle.Tree.{MTree}
use substrate_scaffold.Anchors.{
  Pallet, Revokable, revoked, Document, UnixTimeSeconds, AnchorKey, LeafKey, Call,
  revoke_anchor_call, dispatch, lookup_anchor,
}
use substrate_scaffold.Anchors.Membership.{admins_of}
use substrate_scaffold.Anchors.Permanence.{anchor_of_revoke_anchor}
use substrate_scaffold.Runtime.{Externals, runtime, anchors_pallet}
use substrate_scaffold.Runtime.Members.{hashed, members, member_proof, member_proof-revokes}
use substrate_scaffold.Runtime.Calls.{Chain, Modules, anchors_call}
use substrate_scaffold.Runtime.Api.{Executive, apply_extrinsic}
use substrate_scaffold.Runtime.Extra.{Extensions, Reading, Applying, SignedExtra}
use substrate_scaffold.Runtime.Extra.Passing.{IsValid, HasRoom, pre_dispatch-passes}
use substrate_scaffold.Runtime.Extra.Fees.{dispatched_call}

module _ (x : Externals) (anchors : StorageMap (AnchorKey (runtime x)) (Revokable ℕ))
    (leaves : StorageMap (LeafKey (runtime x)) UnixTimeSeconds) (t : MTree x.AccountId)
    {m : Modules (anchors_pallet x anchors leaves)}
    {ex : Executive (anchors_pallet x anchors leaves) m} {ext : Extensions ex} {r : Reading ext}
    (a : Applying ext r) where
  abbrev chain_of : Pallet
  chain_of = anchors_pallet x anchors leaves

  abbrev group : MerkleRoot x.AccountId (Array ℕ 32)
  group = admins_of chain_of (hashed x t)

  -- The call by which a member revokes an anchor, with the proof that the tree makes.
  abbrev pub revocation :
      {who : x.AccountId}
      → Memᴰ who (members x t)
      → MerkleRoot Document (Array ℕ 32)
      → Call (runtime x)
  revocation n root = revoke_anchor_call group root (member_proof x anchors leaves t n)

  revocation-dispatch :
      (origin : x.Origin) (who : x.AccountId) (root : MerkleRoot Document (Array ℕ 32))
      (s : Chain chain_of m.Rest) (n : Memᴰ who (members x t))
      → x.ensure_signed origin ≡ ok who
      → lookup_anchor chain_of s.pallet group root ≢ some revoked
      → let after = dispatch chain_of origin (revocation n root) s.pallet in
        (after.0 ≡ ok tt) × (lookup_anchor chain_of after.1 group root ≡ some revoked)
  unfolding dispatch
  revocation-dispatch origin who root s n signed h =
      let proof = member_proof x anchors leaves t n in
      let done = member_proof-revokes x anchors leaves t origin who root s.pallet n signed h in
      (done, anchor_of_revoke_anchor chain_of origin group root proof s.pallet done)

  -- A member of the administrators, at most 16 steps below their root, can revoke any anchor of
  -- theirs on the chain that is not revoked: an extrinsic of the member's, whose call is a
  -- `revoke_anchor` with the proof that the tree makes for the account, is applied with success,
  -- and the anchor is revoked, if the extrinsic is valid, the block has room for it and the account
  -- can pay for it and keep the existential deposit.
  pub member_revokes_onchain :
      (e : ex.Extrinsic) (s : Chain chain_of m.Rest) (who : x.AccountId)
      (extra : SignedExtra ext.Era) (root : MerkleRoot Document (Array ℕ 32))
      (n : Memᴰ who (members x t))
      → r.signature e ≡ some (who, extra)
      → ex.function e ≡ anchors_call (revocation n root)
      → lookup_anchor chain_of s.pallet group root ≢ some revoked
      → IsValid ext extra who (r.get_dispatch_info (ex.function e)) (r.len e) s.rest
      → HasRoom ext extra who (r.get_dispatch_info (ex.function e)) (r.len e) s.rest
      → let (outcome, after) = apply_extrinsic ex e s in
        (outcome ≡ ok (ok tt)) × (lookup_anchor chain_of after.pallet group root ≡ some revoked)
  unfolding apply_extrinsic
  member_revokes_onchain e s who extra root n by f h valid room =
      let info = r.get_dispatch_info (ex.function e) in
      let known = ap r.get_dispatch_info f ∙ r.anchors_info (revocation n root) in
      let passes =
        pre_dispatch-passes ext extra who info (r.len e) s.rest (ap (λ i. i.class) known)
          (ap (λ i. i.pays_fee) known) valid room in
      elim (a.signed e s who extra by) [
        | inl (why, refused, same) ↦ absurd (cc (refused, passes))
        | inr (origin, passed, signed, d) ↦
            let (balance, outcome, pallet) =
              dispatched_call a e s who extra (revocation n root) f origin _ d in
            let (done, result) = revocation-dispatch origin who root s n signed h in
            (outcome ∙ ap ok done, ap (λ z. lookup_anchor chain_of z group root) pallet ∙ result)
      ]
