-- ===== src/Runtime/Extra/Checks.antt =====
-- vasaplatsen/runtime/src/lib.rs: what the checks of `SignedExtra` do together.
use substrate_scaffold.Prelude.{
  true, ℕ, ◌+◌, ◌≤◌, ◌≡◌, ◌≢◌, ◌⊎◌, inl, inr, refl, sym, ap, subst, ◌∙◌, arith,
}
use substrate_scaffold.Result.{Result, ok, err, Exec, ◌>>◌, bind}
use substrate_scaffold.Anchors.{Pallet}
use substrate_scaffold.Runtime.Calls.{Modules}
use substrate_scaffold.Runtime.Api.{Executive}
use substrate_scaffold.Runtime.Setup.{system_trait, transaction_payment_trait}
use substrate_scaffold.Runtime.Extra.{
  maximum_block_weight, DispatchInfo, normal, Extensions, SignedExtra, pre_dispatch, smaller,
  u128_max,
}

module _ {p : Pallet} {m : Modules p} {x : Executive p m} (ext : Extensions x) where
  module _ (extra : SignedExtra ext.Era) (who : p.AccountId) (info : DispatchInfo) (len : ℕ) where
    abbrev pub weigh : Exec m.Rest x.Invalid Unit
    weigh = ext.check_weight (system_trait ext.perbills ext.apis) info len

    abbrev pub pay : Exec m.Rest x.Invalid Unit
    pay = ext.charge transaction_payment_trait extra.tip who info len

    -- What the checks from `r` on end in: a check before the payment refuses, and no balance
    -- changes, or they come to the payment from a state that `CheckWeight` left.
    Ended : m.Rest → Result x.Invalid (Unit {0}) × m.Rest → Type 0
    Ended r out =
        ((why : x.Invalid) × (out.0 ≡ err why)
          × (ext.block_weight r ≤ ext.block_weight out.1)
          × (ext.free_balance out.1 ≡ ext.free_balance r))
        ⊎ ((before : m.Rest) × (ext.block_weight before ≡ ext.block_weight r)
            × (ext.free_balance before ≡ ext.free_balance r)
            × ((weigh before).0 ≡ ok tt)
            × (out ≡ pay (weigh before).1))

    -- A check that changes neither the weight nor a balance can come before the others.
    Ended-bind :
        (rest : Exec m.Rest x.Invalid (Unit {0})) (r : m.Rest)
        (out : Result x.Invalid (Unit {0}) × m.Rest)
        → ext.block_weight out.1 ≡ ext.block_weight r
        → ext.free_balance out.1 ≡ ext.free_balance r
        → Ended out.1 (rest out.1)
        → Ended r (bind (λ _. rest) out)
    unfolding Ended
    Ended-bind rest r (ok a, t) w f (inl (why, e, v, g)) = inl (why, e, omega (arith, w, v), g ∙ f)
    Ended-bind rest r (ok a, t) w f (inr (before, v, g, e, o)) = inr (before, v ∙ w, g ∙ f, e, o)
    Ended-bind rest r (err why, t) w f h = inl (why, refl, omega (arith, w), f)

    kept :
        {r t : m.Rest}
        → t ≡ r
        → (ext.block_weight t ≡ ext.block_weight r) × (ext.free_balance t ≡ ext.free_balance r)
    kept e = (ap ext.block_weight e, ap ext.free_balance e)

    Ended-paid :
        (r : m.Rest) (out : Result x.Invalid (Unit {0}) × m.Rest)
        → weigh r ≡ out
        → Ended r (bind (λ _. pay) out)
    unfolding Ended
    Ended-paid r (ok a, t) e = inr (r, refl, refl, ap (λ o. o.0) e, ap (λ o. pay o.1) (sym e))
    Ended-paid r (err why, t) e =
        let (w, f, u) = ext.weight_keeps (system_trait ext.perbills ext.apis) info len r in
        let after = ap (λ o. o.1) e in
        inl (
          why,
          refl,
          subst (λ z. ext.block_weight r ≤ ext.block_weight z) after w,
          sym (ap ext.free_balance after) ∙ f,
        )

    Ended-step :
        (check rest : Exec m.Rest x.Invalid (Unit {0}))
        → ((r : m.Rest)
            → (ext.block_weight (check r).1 ≡ ext.block_weight r)
              × (ext.free_balance (check r).1 ≡ ext.free_balance r))
        → ((r : m.Rest) → Ended r (rest r))
        → (r : m.Rest) → Ended r ((check >> rest) r)
    Ended-step check rest keeps h r =
        let (w, f) = keeps r in Ended-bind rest r (check r) w f (h (check r).1)

    pre_dispatch-Ended : (r : m.Rest) → Ended r (pre_dispatch ext extra who info len r)
    unfolding pre_dispatch
    pre_dispatch-Ended =
        let to_pay : Exec m.Rest x.Invalid Unit = weigh >> pay in
        let to_nonce : Exec m.Rest x.Invalid Unit = ext.check_nonce who extra.nonce >> to_pay in
        let to_era : Exec m.Rest x.Invalid Unit = ext.check_era extra.era >> to_nonce in
        let to_genesis : Exec m.Rest x.Invalid Unit = ext.check_genesis >> to_era in
        let version = (system_trait ext.perbills ext.apis).version in
        Ended-step (ext.check_version version) to_genesis (λ r. kept (ext.version_keeps version r))
          (Ended-step ext.check_genesis to_era (λ r. kept (ext.genesis_keeps r))
            (Ended-step (ext.check_era extra.era) to_nonce (λ r. kept (ext.era_keeps extra.era r))
              (Ended-step (ext.check_nonce who extra.nonce) to_pay
                (λ r. let (w, f, l, u) = ext.nonce_keeps who extra.nonce r in (w, f))
                (λ r. Ended-paid r (weigh r) refl))))

    weigh-kept :
        (r : m.Rest)
        → (ext.block_weight r ≤ ext.block_weight (weigh r).1)
          × (ext.free_balance (weigh r).1 ≡ ext.free_balance r)
    weigh-kept r =
        let (w, f, u) = ext.weight_keeps (system_trait ext.perbills ext.apis) info len r in (w, f)

    block_weight-pay : (r : m.Rest) → ext.block_weight (pay r).1 ≡ ext.block_weight r
    block_weight-pay = ext.charge_keeps transaction_payment_trait extra.tip who info len

    -- The checks never make the weight of the block less.
    pub block_weight-pre_dispatch :
        (r : m.Rest)
        → ext.block_weight r ≤ ext.block_weight (pre_dispatch ext extra who info len r).1
    unfolding Ended
    block_weight-pre_dispatch r = elim (pre_dispatch-Ended r) [
      | inl (why, e, w, f) ↦ w
      | inr (before, w, f, e, o) ↦ omega (
        arith,
        w,
        (weigh-kept before).0,
        block_weight-pay (weigh before).1,
        ap (λ z. ext.block_weight z.1) o,
      )
    ]

    -- An extrinsic of the class `normal` that passes is counted, and keeps the block within the
    -- available three quarters of the maximum.
    pub pre_dispatch-counted :
        (r : m.Rest)
        → info.class ≡ normal
        → (pre_dispatch ext extra who info len r).0 ≡ ok tt
        → let after = (pre_dispatch ext extra who info len r).1 in
          (ext.block_weight after ≡ ext.block_weight r + smaller info.weight 750000)
          × (ext.block_weight after ≤ 750000)
    unfolding Ended
    pre_dispatch-counted r n h = elim (pre_dispatch-Ended r) [
      | inl (why, e, w, f) ↦ absurd (cc)
      | inr (before, w, f, e, o) ↦
          let t = system_trait ext.perbills ext.apis in
          let limit =
            ext.perbills.part-from_percent 75 1000000 750000 (omega arith) (omega arith) in
          let (c, d) = ext.weight_counted t info len before n e in
          let same = ap (λ z. ext.block_weight z.1) o ∙ block_weight-pay (weigh before).1 in
          (same ∙ c ∙ (λ i. w i + smaller info.weight (limit i)), omega (arith, same, d, limit))
    ]

    -- A refused extrinsic costs nothing.
    pub pre_dispatch-refused :
        (r : m.Rest) (why : x.Invalid)
        → (pre_dispatch ext extra who info len r).0 ≡ err why
        → ext.free_balance (pre_dispatch ext extra who info len r).1 ≡ ext.free_balance r
    unfolding Ended
    pre_dispatch-refused r why h = elim (pre_dispatch-Ended r) [
      | inl (other, e, w, f) ↦ f
      | inr (before, w, f, e, o) ↦
          let refused = ap (λ z. z.0) (sym o) ∙ h in
          let same =
            ext.charge_refused transaction_payment_trait extra.tip who info len (weigh before).1 why
              refused in
          ap (λ z. ext.free_balance z.1) o ∙ ap ext.free_balance same ∙ (weigh-kept before).1 ∙ f
    ]

    -- One that passes, and whose call pays, costs its signer one unit for each byte and for each unit of weight, and the
    -- tip.
    pub pre_dispatch-charged :
        (r : m.Rest)
        → info.pays_fee ≡ true
        → info.weight ≤ maximum_block_weight
        → len + info.weight + extra.tip ≤ u128_max
        → (pre_dispatch ext extra who info len r).0 ≡ ok tt
        → let after = (pre_dispatch ext extra who info len r).1 in
          (ext.free_balance r who ≡ ext.free_balance after who + (len + info.weight + extra.tip))
          × ((other : p.AccountId)
              → other ≢ who
              → ext.free_balance after other ≡ ext.free_balance r other)
    unfolding Ended
    pre_dispatch-charged r pays light small h = elim (pre_dispatch-Ended r) [
      | inl (why, e, w, f) ↦ absurd (cc)
      | inr (before, w, f, e, o) ↦
          let same = (weigh-kept before).1 ∙ f in
          let (paid, others) =
            ext.charged transaction_payment_trait extra.tip who info len (weigh before).1 pays light
              (omega arith) (ap (λ z. z.0) (sym o) ∙ h) in
          let after = ap (λ z. ext.free_balance z.1) o in
          (
            omega (arith, ap (λ b. b who) same, paid, ap (λ b. b who) after),
            λ other n. ap (λ b. b other) after ∙ others other n ∙ ap (λ b. b other) same,
          )
    ]
