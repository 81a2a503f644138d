-- ===== src/Runtime/Extra/Fees.antt =====
-- lib.rs with mod.rs: what a call of the pallet costs the account that signs it.
use substrate_scaffold.Prelude.{◌+◌, ◌≤◌, ◌≡◌, ◌≢◌, ◌⊎◌, inl, inr, ap, ◌∙◌, arith, some}
use substrate_scaffold.Result.{ok, err}
use substrate_scaffold.Anchors.{Pallet, Call, dispatch}
use substrate_scaffold.Runtime.Calls.{Chain, Modules, anchors_call, outer_dispatch}
use substrate_scaffold.Runtime.Reaching.{anchors_call-kept}
use substrate_scaffold.Runtime.Api.{Executive, apply_extrinsic}
use substrate_scaffold.Runtime.Extra.{
  Extensions, Reading, Applying, Dispatched, SignedExtra, u128_max,
}
use substrate_scaffold.Runtime.Extra.Checks.{pre_dispatch-refused, pre_dispatch-charged}

module _ {p : Pallet} {m : Modules p} {x : Executive p m} {ext : Extensions x} {r : Reading ext}
    (a : Applying ext r) where
  module _ (e : x.Extrinsic) (s : Chain p m.Rest) (who : p.AccountId) (extra : SignedExtra ext.Era)
      (c : Call p.trait) (f : x.function e ≡ anchors_call c) where
    -- The call of an account was dispatched from `t`, and ended as the pallet's dispatch ends.
    pub dispatched_call :
        (origin : p.Origin) (t : Chain p m.Rest)
        → Dispatched ext e origin s t
        → (ext.free_balance (x.apply e s).1.rest ≡ ext.free_balance t.rest)
          × ((x.apply e s).0 ≡ ok (dispatch p origin c s.pallet).0)
          × ((x.apply e s).1.pallet ≡ (dispatch p origin c s.pallet).1)
    dispatched_call origin t d =
        let (pallet, rest, outcome) = anchors_call-kept p m c origin t in
        let at = λ (z : _). outer_dispatch p m z origin t in
        (
          d.free_after ∙ ap (λ z. ext.free_balance (at z).1.rest) f ∙ ap ext.free_balance rest,
          d.reported
              ∙ ap (λ z. ok (at z).0) f
              ∙ ap ok outcome
              ∙ ap (λ z. ok (dispatch p origin c z).0) d.same_pallet,
          d.pallet_after
              ∙ ap (λ z. (at z).1.pallet) f
              ∙ pallet
              ∙ ap (λ z. (dispatch p origin c z).1) d.same_pallet,
        )

    -- An extrinsic that `who` signed, whose call is one of the pallet, is refused, and then costs
    -- nothing and leaves the pallet's storage as it was; or it is dispatched to the pallet with an
    -- origin that `who` signed, and then, whether the call ends in success or in an error, costs
    -- `who` one unit for each byte of it, 10000 units for its weight, and the tip, and changes the
    -- balance of nobody else; if these units together fit a `u128`.
    pub apply_extrinsic-costs :
        r.signature e ≡ some (who, extra)
        → r.len e + 10000 + extra.tip ≤ u128_max
        → let (outcome, after) = apply_extrinsic x e s in
          ((why : x.Invalid) × (outcome ≡ err why)
            × (after.pallet ≡ s.pallet)
            × (ext.free_balance after.rest ≡ ext.free_balance s.rest))
          ⊎ ((origin : p.Origin) × (p.ensure_signed origin ≡ ok who)
              × (outcome ≡ ok (dispatch p origin c s.pallet).0)
              × (after.pallet ≡ (dispatch p origin c s.pallet).1)
              × (ext.free_balance s.rest who
                  ≡ ext.free_balance after.rest who + (r.len e + 10000 + extra.tip))
              × ((other : p.AccountId)
                  → other ≢ who
                  → ext.free_balance after.rest other ≡ ext.free_balance s.rest other))
    unfolding apply_extrinsic
    apply_extrinsic-costs by small =
        let info = r.get_dispatch_info (x.function e) in
        let known = ap r.get_dispatch_info f ∙ r.anchors_info c in
        let w : info.weight ≡ 10000 = ap (λ i. i.weight) known in
        elim (a.signed e s who extra by) [
          | inl (why, refused, same) ↦
              let after = ap (λ z. z.1) same in
              inl (
                why,
                ap (λ z. z.0) same,
                ap (λ t. t.pallet) after,
                ap (λ t. ext.free_balance t.rest) after
                    ∙ pre_dispatch-refused ext extra who info (r.len e) s.rest why refused,
              )
          | inr (origin, passed, signed, d) ↦
              let (balance, outcome, pallet) = dispatched_call origin _ d in
              let (paid, others) =
                pre_dispatch-charged ext extra who info (r.len e) s.rest
                  (ap (λ i. i.pays_fee) known) (omega (arith, w)) (omega (arith, w, small))
                  passed in
              inr (
                origin,
                signed,
                outcome,
                pallet,
                omega (arith, paid, w, ap (λ b. b who) balance),
                λ other n. ap (λ b. b other) balance ∙ others other n,
              )
        ]
