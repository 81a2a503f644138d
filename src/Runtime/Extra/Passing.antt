-- ===== src/Runtime/Extra/Passing.antt =====
-- vasaplatsen/runtime/src/lib.rs: when the checks of `SignedExtra` let an extrinsic pass.
use substrate_scaffold.Prelude.{true, ℕ, ◌+◌, ◌≤◌, ◌≡◌, sym, ap, subst, ◌∙◌, arith}
use substrate_scaffold.Result.{ok, Exec, ◌>>◌, bind-ok}
use substrate_scaffold.Anchors.{Pallet}
use substrate_scaffold.Runtime.Calls.{Modules}
use substrate_scaffold.Runtime.Api.{Executive}
use substrate_scaffold.Runtime.Setup.{system_trait, transaction_payment_trait}
use substrate_scaffold.Runtime.Extra.{
  DispatchInfo, normal, Extensions, SignedExtra, pre_dispatch, u128_max,
}
use substrate_scaffold.Runtime.Extra.Checks.{weigh, pay}

module _ {p : Pallet} {m : Modules p} {x : Executive p m} (ext : Extensions x) where
  module _ (extra : SignedExtra ext.Era) (who : p.AccountId) (info : DispatchInfo) (len : ℕ) where
    -- The checks that only look at what is stored let the extrinsic pass, and its nonce is the next.
    pub record IsValid (r : m.Rest) : Type 0 where
      pub version_valid :
          (ext.check_version (system_trait ext.perbills ext.apis).version r).0 ≡ ok tt
      pub genesis_valid : (ext.check_genesis r).0 ≡ ok tt
      pub era_valid : (ext.check_era extra.era r).0 ≡ ok tt
      pub nonce_valid : (ext.check_nonce who extra.nonce r).0 ≡ ok tt

    -- The block has room for the extrinsic, and the account can pay for it.
    pub record HasRoom (r : m.Rest) : Type 0 where
      pub weight_left : ext.block_weight r + info.weight ≤ 750000
      pub length_left : ext.block_length r + len ≤ 3932160
      pub can_pay : len + info.weight + extra.tip + 500 ≤ ext.usable_balance r who
      pub is_fee : len + info.weight + extra.tip ≤ u128_max

    passed-step :
        (check rest : Exec m.Rest x.Invalid (Unit {0})) (r : m.Rest)
        → (check r).0 ≡ ok tt
        → (rest (check r).1).0 ≡ ok tt
        → ((check >> rest) r).0 ≡ ok tt
    passed-step check rest r h k = ap (λ z. z.0) (bind-ok (λ _. rest) (check r) tt h) ∙ k

    kept-step :
        (check rest : Exec m.Rest x.Invalid (Unit {0})) (r : m.Rest)
        → (check r).0 ≡ ok tt
        → (check r).1 ≡ r
        → (rest r).0 ≡ ok tt
        → ((check >> rest) r).0 ≡ ok tt
    kept-step check rest r h e k =
        passed-step check rest r h (subst (λ z. (rest z).0 ≡ ok tt) (sym e) k)

    paid :
        (r : m.Rest)
        → info.class ≡ normal
        → info.pays_fee ≡ true
        → HasRoom r
        → ((weigh ext extra who info len >> pay ext extra who info len) r).0 ≡ ok tt
    paid r n pays h =
        let t = system_trait ext.perbills ext.apis in
        let weight = ext.perbills.part-from_percent 75 1000000 750000 (omega arith) (omega arith) in
        let length =
          ext.perbills.part-from_percent 75 5242880 3932160 (omega arith) (omega arith) in
        let (w, f, u) = ext.weight_keeps t info len r in
        passed-step (weigh ext extra who info len) (pay ext extra who info len) r
          (ext.weight_passes t info len r n (ground (arith, h.weight_left, weight))
            (omega (arith, h.length_left, length)))
          (ext.charge_passes transaction_payment_trait extra.tip who info len
            (weigh ext extra who info len r).1 pays (omega (arith, h.weight_left))
            (omega (arith, h.can_pay, ap (λ b. b who) u)) (omega (arith, h.is_fee)))

    -- The checks let a valid extrinsic pass for which there is room.
    pub pre_dispatch-passes :
        (r : m.Rest)
        → info.class ≡ normal
        → info.pays_fee ≡ true
        → IsValid r
        → HasRoom r
        → (pre_dispatch ext extra who info len r).0 ≡ ok tt
    unfolding pre_dispatch
    pre_dispatch-passes r n pays v h =
        let version = (system_trait ext.perbills ext.apis).version in
        let to_pay : Exec m.Rest x.Invalid Unit =
          weigh ext extra who info len >> pay ext extra who info len in
        let to_nonce : Exec m.Rest x.Invalid Unit = ext.check_nonce who extra.nonce >> to_pay in
        let to_era : Exec m.Rest x.Invalid Unit = ext.check_era extra.era >> to_nonce in
        let to_genesis : Exec m.Rest x.Invalid Unit = ext.check_genesis >> to_era in
        let (w, f, l, u) = ext.nonce_keeps who extra.nonce r in
        let r' = (ext.check_nonce who extra.nonce r).1 in
        let room : HasRoom r' = record {
          weight_left = omega (arith, h.weight_left, w);
          length_left = omega (arith, h.length_left, l);
          can_pay = omega (arith, h.can_pay, ap (λ b. b who) u);
          is_fee = h.is_fee;
        } in
        kept-step (ext.check_version version) to_genesis r v.version_valid
          (ext.version_keeps version r)
          (kept-step ext.check_genesis to_era r v.genesis_valid (ext.genesis_keeps r) (
            kept-step (ext.check_era extra.era) to_nonce r v.era_valid (ext.era_keeps extra.era r) (
              passed-step (ext.check_nonce who extra.nonce) to_pay r v.nonce_valid
                (paid r' n pays room))))
