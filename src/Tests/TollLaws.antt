-- ===== src/Tests/TollLaws.antt =====
-- The laws of the checks of the toy runtime.
use substrate_scaffold.Runtime.Api.{Block}
use substrate_scaffold.Prelude.{
  suc, eqb, Bool-cases, true, subst, ℕ, ◌+◌, ◌*◌, ◌≤◌, ◌≡◌, ◌≢◌, ◌⊎◌, inl, inr, refl, Bool, false,
  Option, none, some, arith,
}
use substrate_scaffold.Result.{Result, ok, err}
use substrate_scaffold.Runtime.Calls.{
  OuterCall, system_call, timestamp_call, grandpa_call, indices_call, balances_call, sudo_call,
  sudo_as_call, set_key_call, randomness_collective_flip_call, anchors_call, outer_dispatch,
}
use substrate_scaffold.Runtime.Reaching.{IsOverride}
use substrate_scaffold.Runtime.Setup.{maximum_block_weight, SystemTrait, TransactionPaymentTrait}
use substrate_scaffold.Runtime.Extra.{
  Signing, DispatchInfo, normal, Extensions, SignedExtra, pre_dispatch, Reading, Dispatched,
  Applying, smaller, u128_max,
}
use substrate_scaffold.Tests.Toy.{chain, Output, origin_signer, block_of}
use substrate_scaffold.Tests.TollNode.{
  Toll, Tolls, stills, percents, same_account, weigh, charge, Extrinsic, call_info, extra_of,
  checks, toll_executive,
}

module _ {V : Type 0} (t : SystemTrait percents V) (info : DispatchInfo) (n : ℕ) (r : Toll) where
  weight-weigh : r.weight ≤ (weigh t info n r).1.weight
  weight-weigh = ground arith

  pub funds-weigh : (weigh t info n r).1.funds ≡ r.funds
  funds-weigh = ground arith

  pub weigh_passes :
      info.class ≡ normal
      → let limit = percents.part t.available_block_ratio t.maximum_block_weight in
        r.weight + smaller info.weight limit ≤ limit
        → 0 + n ≤ percents.part t.available_block_ratio t.maximum_block_length
        → (weigh t info n r).0 ≡ ok tt
  weigh_passes c h k = ground arith

  pub weigh_counted :
      info.class ≡ normal
      → (weigh t info n r).0 ≡ ok tt
      → let limit = percents.part t.available_block_ratio t.maximum_block_weight in
        ((weigh t info n r).1.weight ≡ r.weight + smaller info.weight limit)
        × ((weigh t info n r).1.weight ≤ limit)
  weigh_counted c h = ground arith

module _ (t : TransactionPaymentTrait) (tip : ℕ) (who : Output) (info : DispatchInfo) (n : ℕ)
    (r : Toll) where
  pub charge_keeps : (charge t tip who info n r).1.weight ≡ r.weight
  charge_keeps = ground arith

  pub charge_refused :
      (why : Bool) → (charge t tip who info n r).0 ≡ err why → (charge t tip who info n r).1 ≡ r
  charge_refused why h = ground arith

  pub charged :
      let fee =
        t.transaction_base_fee + t.transaction_byte_fee * n + t.weight_to_fee info.weight + tip in
      info.pays_fee ≡ true
      → info.weight ≤ maximum_block_weight
      → fee ≤ u128_max
      → (charge t tip who info n r).0 ≡ ok tt
      → (r.funds who ≡ (charge t tip who info n r).1.funds who + fee)
        × ((other : Output)
            → other ≢ who
            → (charge t tip who info n r).1.funds other ≡ r.funds other)
  charged pays light small h = (
    ground (arith, same_account.eq_iff who who),
    λ other ne. ground (arith, same_account.eq_iff other who),
  )

  pub charge_passes :
      let fee =
        t.transaction_base_fee + t.transaction_byte_fee * n + t.weight_to_fee info.weight + tip in
      info.pays_fee ≡ true
      → info.weight ≤ maximum_block_weight
      → fee + 500 ≤ r.funds who
      → fee ≤ u128_max
      → (charge t tip who info n r).0 ≡ ok tt
  charge_passes pays light h small = ground arith

pub weigh_keeps :
    {V : Type 0} (t : SystemTrait percents V) (info : DispatchInfo) (n : ℕ) (r : Toll)
    → (r.weight ≤ (weigh t info n r).1.weight)
      × ((weigh t info n r).1.funds ≡ r.funds)
      × ((weigh t info n r).1.funds ≡ r.funds)
weigh_keeps t info n r = (weight-weigh t info n r, funds-weigh t info n r, funds-weigh t info n r)

abbrev pub toll_extensions : Extensions toll_executive
toll_extensions = record {
  perbills = percents;
  Apis = Unit;
  apis = tt;
  Era = Unit;
  block_weight = λ r. r.weight;
  block_length = λ r. 0;
  free_balance = λ r. r.funds;
  usable_balance = λ r. r.funds;
  check_version = λ v r. (ok tt, r);
  check_genesis = λ r. (ok tt, r);
  check_era = λ era r. (ok tt, r);
  check_nonce = λ who n r. (ok tt, r);
  check_weight = weigh;
  charge = charge;
  version_keeps = λ v r. refl;
  genesis_keeps = λ r. refl;
  era_keeps = λ era r. refl;
  nonce_keeps = λ who n r. (refl, refl, refl, refl);
  weight_keeps = weigh_keeps;
  weight_passes = weigh_passes;
  weight_counted = weigh_counted;
  charge_keeps = charge_keeps;
  charge_refused = charge_refused;
  charged = charged;
  charge_passes = charge_passes;
}

abbrev signature_by : Option Output → ℕ → Option (Output × SignedExtra (Unit {0}))
signature_by none tip = none
signature_by (some who) tip = some (who, extra_of tip)

abbrev pub toll_reading : Reading toll_extensions
toll_reading = record {
  signature = λ e. signature_by e.who e.tip;
  len = λ e. 100;
  get_dispatch_info = λ c. call_info;
  anchors_info = λ c. refl;
}

-- How the call ends that the checks let through or refuse.
abbrev pub Ran : Extrinsic → Tolls → Output → Result Bool (Unit {0}) × Toll → Type 0
Ran e s who run =
    ((why : Bool) × (run.0 ≡ err why)
      × (toll_executive.apply e s ≡ (err why, record s { rest = run.1 })))
    ⊎ ((origin : Option Output) × (run.0 ≡ ok tt)
        × (origin_signer origin ≡ ok who)
        × Dispatched toll_extensions e origin s (record s { rest = run.1 }))

finished_Ran :
    (who : Output) (f : OuterCall chain stills) (tip : ℕ) (s : Tolls)
    (out : Result Bool (Unit {0}) × Toll)
    → let e : Extrinsic = record { who = some who; function = f; tip = tip } in
      checks e who s.rest ≡ out → Ran e s who out
finished_Ran who f tip s (err why, r) h = inl (why, refl, rw h refl)
finished_Ran who f tip s (ok u, r) h = inr (
  some who,
  refl,
  refl,
  record {
    not_root = λ e. cc (e);
    same_pallet = refl;
    same_key = refl;
    reported = rw h refl;
    pallet_after = rw h refl;
    weight_after = rw h refl;
    free_after = rw h refl;
  },
)

signed_by :
    (by : Option Output) (f : OuterCall chain stills) (tip : ℕ) (s : Tolls) (who : Output)
    (extra : SignedExtra (Unit {0}))
    → signature_by by tip ≡ some (who, extra)
    → let e : Extrinsic = record { who = by; function = f; tip = tip } in
      Ran e s who (pre_dispatch toll_extensions extra who call_info 100 s.rest)
unfolding pre_dispatch
signed_by none f tip s who extra h = cc
signed_by (some by) f tip s who extra h =
    let e : Extrinsic = record { who = some by; function = f; tip = tip } in
    let run = checks e by s.rest in
    let same : ◌≡◌ {A = Output × SignedExtra (Unit {0})} (by, extra_of tip) (who, extra) = cc in
    subst (λ z. Ran e s z.0 (pre_dispatch toll_extensions z.1 z.0 call_info 100 s.rest)) same
      (finished_Ran by f tip s run refl)

pub signed :
    (e : Extrinsic) (s : Tolls) (who : Output) (extra : SignedExtra (Unit {0}))
    → signature_by e.who e.tip ≡ some (who, extra)
    → Ran e s who (pre_dispatch toll_extensions extra who call_info 100 s.rest)
signed e = signed_by e.who e.function e.tip

unsigned_by :
    (by : Option Output) (f : OuterCall chain stills) (tip : ℕ) (s : Tolls)
    → signature_by by tip ≡ none
    → let e : Extrinsic = record { who = by; function = f; tip = tip } in
      toll_executive.apply e s ≡ (err false, s)
unsigned_by none f tip s h = refl
unsigned_by (some by) f tip s h = absurd (cc)

pub unsigned :
    (e : Extrinsic) (s : Tolls)
    → signature_by e.who e.tip ≡ none
    → ((why : Bool) × (toll_executive.apply e s ≡ (err why, s)))
      ⊎ ((origin : Option Output) × (t : Tolls) × ((who : Output) → origin_signer origin ≢ ok who)
          × (s.rest.weight ≤ t.rest.weight)
          × Dispatched toll_extensions e origin s t)
unsigned e s h = inl (false, unsigned_by e.who e.function e.tip s h)

pub calls_keep :
    (c : OuterCall chain stills) (origin : Option Output) (s : Tolls)
    → origin ≢ none
    → ((outer_dispatch chain stills c origin s).1.rest.weight ≡ s.rest.weight)
      ⊎ IsOverride chain stills (block_of 1) origin c
unfolding outer_dispatch
calls_keep (system_call c) origin s o = inl refl
calls_keep (timestamp_call c) origin s o = inl refl
calls_keep (grandpa_call c) origin s o = inl refl
calls_keep (indices_call c) origin s o = inl refl
calls_keep (balances_call c) origin s o = inl refl
calls_keep (sudo_call c) origin s o = inl refl
calls_keep (sudo_as_call address c) origin s o = inl refl
calls_keep (set_key_call c) origin s o = inl refl
calls_keep (randomness_collective_flip_call c) origin s o = inl refl
calls_keep (anchors_call c) origin s o = inl refl

pub ends :
    (b : Block ℕ Extrinsic) (s t : Tolls) → toll_executive.execute b s ≡ some t → t.rest.weight ≡ 0
ends b s t e = elim (Bool-cases (eqb b.header (suc s.pallet.block_number))) [
  | inl same ↦ ground arith
  | inr differ ↦ absurd (ground arith)
]

abbrev pub toll_applying : Applying toll_extensions toll_reading
toll_applying = record {
  signed = signed;
  unsigned = unsigned;
  starts = λ h s e. e;
  ends = ends;
  calls_keep = calls_keep;
}

names_by :
    (by : Option Output) (tip : ℕ) (who : Output) (extra : SignedExtra (Unit {0}))
    → signature_by by tip ≡ some (who, extra)
    → by ≡ some who
names_by none tip who extra h = cc
names_by (some by) tip who extra h = cc

pub names_signer :
    (e : Extrinsic) (who : Output) (extra : SignedExtra (Unit {0}))
    → signature_by e.who e.tip ≡ some (who, extra)
    → e.who ≡ some who
names_signer e = names_by e.who e.tip

abbrev pub toll_signing : Signing toll_extensions toll_reading
toll_signing = record { signed_by = names_signer }
