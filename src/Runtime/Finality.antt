-- ===== src/Runtime/Finality.antt =====
-- lib.rs with mod.rs: what an extrinsic of the pallet that a node reports as a success settles, for
-- all blocks after it.
use substrate_scaffold.Prelude.{
  ◌⊎◌, ◌≤◌, List, some, true, subst, ◌≡◌, ◌≢◌, ◌∙◌, ap, inl, inr, arith,
}
use substrate_scaffold.Result.{ok}
use substrate_scaffold.Merkle.{MerkleRoot, ProofElement}
use substrate_scaffold.Hasher.{Hashed}
use substrate_scaffold.Anchors.{
  Pallet, State, Call, dispatch, create_anchor_call, revoke_anchor_call, suspend_leaf_call, revoked,
  Document, UnixTimeSeconds, AnchorKey, lookup_anchor, leaf_suspended_by,
}
use substrate_scaffold.Anchors.Outcomes.{create_anchor-ok_iff, revoke_anchor-ok_iff}
use substrate_scaffold.Anchors.Lifecycle.{Reach, anchor_at}
use substrate_scaffold.Anchors.Commute.{entry}
use substrate_scaffold.Anchors.Permanence.{u64_max, revoke_anchor_forever, suspend_leaf_forever}
use substrate_scaffold.Runtime.Calls.{Chain, Modules, anchors_call, outer_dispatch}
use substrate_scaffold.Runtime.Api.{Executive, apply_extrinsic}
use substrate_scaffold.Runtime.Blocks.{NodeReach, NodeReach-cases, Override}

module _ {p : Pallet} {m : Modules p} (x : Executive p m) where
  -- The call of an extrinsic that is reported as a success has been dispatched as one.
  abbrev Settled : Call p.trait → x.Extrinsic → Chain p m.Rest → Type 0
  Settled c e s =
      (origin : p.Origin) × ((dispatch p origin c s.pallet).0 ≡ ok tt)
      × ((apply_extrinsic x e s).1.pallet ≡ (dispatch p origin c s.pallet).1)

  settled :
      (c : Call p.trait) (e : x.Extrinsic) (s : Chain p m.Rest)
      → x.function e ≡ anchors_call c
      → (apply_extrinsic x e s).0 ≡ ok (ok tt)
      → Settled c e s
  unfolding apply_extrinsic outer_dispatch
  settled c e s f h = elim (x.applied e s) [
    | inl (why, refused, same) ↦ absurd (cc (refused, h))
    | inr (origin, t, o, by, before, key, reported, result) ↦
        let ran = ap (λ z. outer_dispatch p m z origin t) f in
        (
          origin,
          ground
              (arith, ap (λ z. (dispatch p origin c z).0) before, ap (λ r. r.0) ran, reported, h),
          result ∙ ap (λ r. r.1.pallet) ran ∙ ap (λ z. (dispatch p origin c z).1) before,
        )
  ]

  revoked-refuses :
      (origin : p.Origin) (c : Call p.trait) (k : AnchorKey p.trait) (s : State p)
      → entry p c ≡ inl k
      → anchor_at p s k ≡ some revoked
      → (dispatch p origin c s).0 ≢ ok tt
  unfolding dispatch lookup_anchor
  revoked-refuses origin (create_anchor_call admins root) k s e r h =
      let free = ((create_anchor-ok_iff p origin admins root s).0 h).1 in cc (e, r, free)
  revoked-refuses origin (revoke_anchor_call admins root proof) k s e r h =
      ((revoke_anchor-ok_iff p origin admins root proof s).0 h).1 (cc (e, r))
  revoked-refuses origin (suspend_leaf_call admins leaf proof end) k s e r h = cc (e)

  -- A revocation that a node reports as a success is final. Where an extrinsic's call is a
  -- `revoke_anchor` and it is applied with success, after whatever blocks the node makes and
  -- imports then: the anchor is revoked, and no extrinsic whose call is about the anchor, to create
  -- or to revoke it, is applied with success; or else the sudo key signed one of the extrinsics
  -- since, which was not refused, with a call of Sudo that holds one of System or of the pallet.
  pub revocation_final :
      (e later : x.Extrinsic) (admins : MerkleRoot p.AccountId p.TreeHashOut)
      (root : MerkleRoot Document p.TreeHashOut) (proof : List (ProofElement p.TreeHashOut))
      (c : Call p.trait) (s u : Chain p m.Rest) (r : NodeReach x (apply_extrinsic x e s).1 u)
      → x.function e ≡ anchors_call (revoke_anchor_call admins root proof)
      → (apply_extrinsic x e s).0 ≡ ok (ok tt)
      → x.function later ≡ anchors_call c
      → entry p c ≡ inl (admins, root)
      → ((lookup_anchor p u.pallet admins root ≡ some revoked)
          × ((apply_extrinsic x later u).0 ≢ ok (ok tt)))
        ⊎ Override x r
  unfolding dispatch
  revocation_final e later admins root proof c s u r f h g k = elim (NodeReach-cases x r) [
    | inr override ↦ inr override
    | inl reach ↦
        let (origin, ran, became) = settled (revoke_anchor_call admins root proof) e s f h in
        let kept =
          (revoke_anchor_forever p origin admins root proof s.pallet u.pallet origin proof ran
            (subst (λ z. Reach p z u.pallet) became reach)).0 in
        inl (
          kept,
          λ again.
              let (other, ran', became') = settled c later u g again in
              revoked-refuses other c (admins, root) u.pallet k kept ran',
        )
  ]

  -- So is a suspension until `u64::max()`. Where an extrinsic's call is a `suspend_leaf` until then
  -- and it is applied with success, after whatever blocks the node makes and imports then: the leaf
  -- is suspended at every time that a `u64` holds, and no extrinsic with a `suspend_leaf` of it
  -- until such a time is applied with success; or else the sudo key signed one of the extrinsics
  -- since, which was not refused, with a call of Sudo that holds one of System or of the pallet.
  pub suspension_final :
      (e later : x.Extrinsic) (admins : MerkleRoot p.AccountId p.TreeHashOut)
      (leaf : Hashed Document p.TreeHashOut) (proof proof' : List (ProofElement p.TreeHashOut))
      (time : UnixTimeSeconds) (s u : Chain p m.Rest) (r : NodeReach x (apply_extrinsic x e s).1 u)
      → x.function e ≡ anchors_call (suspend_leaf_call admins leaf proof u64_max)
      → (apply_extrinsic x e s).0 ≡ ok (ok tt)
      → x.function later ≡ anchors_call (suspend_leaf_call admins leaf proof' time)
      → time ≤ u64_max
      → ((leaf_suspended_by p u.pallet admins leaf time ≡ true)
          × ((apply_extrinsic x later u).0 ≢ ok (ok tt)))
        ⊎ Override x r
  unfolding dispatch
  suspension_final e later admins leaf proof proof' time s u r f h g le =
      elim (NodeReach-cases x r) [
        | inr override ↦ inr override
        | inl reach ↦
            let (origin, ran, became) =
              settled (suspend_leaf_call admins leaf proof u64_max) e s f h in
            let forever = λ (o : p.Origin).
              suspend_leaf_forever p origin admins leaf proof s.pallet u.pallet o proof' time ran
                (subst (λ z. Reach p z u.pallet) became reach) le in
            inl (
              (forever origin).0,
              λ again.
                  let (other, ran', became') =
                    settled (suspend_leaf_call admins leaf proof' time) later u g again in
                  (forever other).1 ran',
            )
      ]
