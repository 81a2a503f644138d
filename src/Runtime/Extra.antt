-- ===== src/Runtime/Extra.antt =====
-- vasaplatsen/runtime/src/lib.rs: `SignedExtra`, the checks that the runtime makes of a signed
-- extrinsic before its call is dispatched, in order. The checks themselves are those of the crates
-- `system` and `transaction_payment`, and stand in `Extensions`.
pub mod Checks
pub mod Passing
pub mod Loading
pub mod Capacity
pub mod Fees
pub mod Revoking
use substrate_scaffold.Prelude.{
  true, Bool, ℕ, ◌+◌, ◌*◌, ◌-◌, ◌^◌, ◌≤◌, ◌≡◌, ◌≢◌, ◌⊎◌, Option, none, some, leb, if◌then◌else◌,
}
use substrate_scaffold.Result.{Result, ok, err, Exec, ◌>>=◌, ◌>>◌}
use substrate_scaffold.Anchors.{Pallet, Call}
use substrate_scaffold.Runtime.Calls.{Chain, Modules, OuterCall, anchors_call, outer_dispatch}
use substrate_scaffold.Runtime.Api.{Block, Executive, RuntimeVersion}
use substrate_scaffold.Runtime.Reaching.{IsOverride}
use substrate_scaffold.Runtime.Setup.{
  maximum_block_weight, Perbills, SystemTrait, TransactionPaymentTrait, system_trait,
  transaction_payment_trait, balances_trait,
}

-- `DispatchClass` and `DispatchInfo` of `frame_support`.
pub data DispatchClass : Type 0 where
  normal operational : DispatchClass

pub record DispatchInfo : Type 0 where
  pub weight : ℕ
  pub class : DispatchClass
  pub pays_fee : Bool

abbrev pub u128_max : ℕ
u128_max = 2 ^ 128 - 1

abbrev pub smaller : ℕ → ℕ → ℕ
smaller a b = if leb a b then a else b

-- The checks, each an action on what the pallets of substrate store, and what they document.
-- `CheckWeight` adds to the weight of the block what the call's `DispatchInfo` says, and refuses an
-- extrinsic of the class `normal` that brings it above the available part of the maximum.
-- Within that part, of the weight and of the length, it lets the extrinsic pass.
-- `ChargeTransactionPayment` takes, for a call that pays and weighs no more than a block, the fee
-- and the tip from the account that signed, and does so if that leaves it with the existential
-- deposit, of what it may use.
pub record Extensions {p : Pallet} {m : Modules p} (x : Executive p m) : Type 1 where
  pub perbills : Perbills
  pub Apis : Type 0
  pub apis : Apis
  pub Era : Type 0
  pub block_weight : m.Rest → ℕ
  pub block_length : m.Rest → ℕ
  pub free_balance : m.Rest → p.AccountId → ℕ
  pub usable_balance : m.Rest → p.AccountId → ℕ
  pub check_version : RuntimeVersion Apis → Exec m.Rest x.Invalid Unit
  pub check_genesis : Exec m.Rest x.Invalid Unit
  pub check_era : Era → Exec m.Rest x.Invalid Unit
  pub check_nonce : p.AccountId → ℕ → Exec m.Rest x.Invalid Unit
  pub check_weight :
      SystemTrait perbills (RuntimeVersion Apis) → DispatchInfo → ℕ → Exec m.Rest x.Invalid Unit
  pub charge :
      TransactionPaymentTrait → ℕ → p.AccountId → DispatchInfo → ℕ → Exec m.Rest x.Invalid Unit
  pub version_keeps : (v : RuntimeVersion Apis) (r : m.Rest) → (check_version v r).1 ≡ r
  pub genesis_keeps : (r : m.Rest) → (check_genesis r).1 ≡ r
  pub era_keeps : (era : Era) (r : m.Rest) → (check_era era r).1 ≡ r
  pub nonce_keeps :
      (who : p.AccountId) (n : ℕ) (r : m.Rest)
      → (block_weight (check_nonce who n r).1 ≡ block_weight r)
        × (free_balance (check_nonce who n r).1 ≡ free_balance r)
        × (block_length (check_nonce who n r).1 ≡ block_length r)
        × (usable_balance (check_nonce who n r).1 ≡ usable_balance r)
  pub weight_keeps :
      (t : SystemTrait perbills (RuntimeVersion Apis)) (info : DispatchInfo) (n : ℕ) (r : m.Rest)
      → (block_weight r ≤ block_weight (check_weight t info n r).1)
        × (free_balance (check_weight t info n r).1 ≡ free_balance r)
        × (usable_balance (check_weight t info n r).1 ≡ usable_balance r)
  pub weight_counted :
      (t : SystemTrait perbills (RuntimeVersion Apis)) (info : DispatchInfo) (n : ℕ) (r : m.Rest)
      → info.class ≡ normal
      → (check_weight t info n r).0 ≡ ok tt
      → let limit = perbills.part t.available_block_ratio t.maximum_block_weight in
        (block_weight (check_weight t info n r).1 ≡ block_weight r + smaller info.weight limit)
        × (block_weight (check_weight t info n r).1 ≤ limit)
  pub weight_passes :
      (t : SystemTrait perbills (RuntimeVersion Apis)) (info : DispatchInfo) (n : ℕ) (r : m.Rest)
      → info.class ≡ normal
      → let limit = perbills.part t.available_block_ratio t.maximum_block_weight in
        block_weight r + smaller info.weight limit ≤ limit
        → block_length r + n ≤ perbills.part t.available_block_ratio t.maximum_block_length
        → (check_weight t info n r).0 ≡ ok tt
  pub charge_keeps :
      (t : TransactionPaymentTrait) (tip : ℕ) (who : p.AccountId) (info : DispatchInfo) (n : ℕ)
      (r : m.Rest)
      → block_weight (charge t tip who info n r).1 ≡ block_weight r
  pub charge_refused :
      (t : TransactionPaymentTrait) (tip : ℕ) (who : p.AccountId) (info : DispatchInfo) (n : ℕ)
      (r : m.Rest) (why : x.Invalid)
      → (charge t tip who info n r).0 ≡ err why
      → (charge t tip who info n r).1 ≡ r
  pub charged :
      (t : TransactionPaymentTrait) (tip : ℕ) (who : p.AccountId) (info : DispatchInfo) (n : ℕ)
      (r : m.Rest)
      → let fee =
          t.transaction_base_fee + t.transaction_byte_fee * n + t.weight_to_fee info.weight + tip in
        info.pays_fee ≡ true
        → info.weight ≤ maximum_block_weight
        → fee ≤ u128_max
        → (charge t tip who info n r).0 ≡ ok tt
        → (free_balance r who ≡ free_balance (charge t tip who info n r).1 who + fee)
          × ((other : p.AccountId)
              → other ≢ who
              → free_balance (charge t tip who info n r).1 other ≡ free_balance r other)
  pub charge_passes :
      (t : TransactionPaymentTrait) (tip : ℕ) (who : p.AccountId) (info : DispatchInfo) (n : ℕ)
      (r : m.Rest)
      → let fee =
          t.transaction_base_fee + t.transaction_byte_fee * n + t.weight_to_fee info.weight + tip in
        info.pays_fee ≡ true
        → info.weight ≤ maximum_block_weight
        → fee + balances_trait.existential_deposit ≤ usable_balance r who
        → fee ≤ u128_max
        → (charge t tip who info n r).0 ≡ ok tt

-- `SignedExtra`: what an extrinsic gives for the checks.
pub record SignedExtra (Era : Type 0) : Type 0 where
  pub era : Era
  pub nonce : ℕ
  pub tip : ℕ

module _ {p : Pallet} {m : Modules p} {x : Executive p m} (ext : Extensions x) where
  -- The checks of `SignedExtra` run in the order of the tuple, up to the first that refuses.
  unfoldable pub pre_dispatch :
      SignedExtra ext.Era → p.AccountId → DispatchInfo → ℕ → Exec m.Rest x.Invalid Unit
  pre_dispatch extra who info len =
      let system = system_trait ext.perbills ext.apis in
      do
        ext.check_version system.version
        ext.check_genesis
        ext.check_era extra.era
        ext.check_nonce who extra.nonce
        ext.check_weight system info len
        ext.charge transaction_payment_trait extra.tip who info len

  -- What `frame_support` makes of a call and what `frame_executive` reads of an extrinsic: who
  -- signed it, if anyone did, with what it gives for the checks, and its encoded length. A call
  -- that is declared without a weight, as all of the pallet `Anchors` are, is of the class `normal`
  -- and weighs 10000.
  pub record Reading : Type 1 where
    pub signature : x.Extrinsic → Option (p.AccountId × SignedExtra ext.Era)
    pub len : x.Extrinsic → ℕ
    pub get_dispatch_info : OuterCall p m → DispatchInfo
    pub anchors_info :
        (c : Call p.trait)
        → get_dispatch_info (anchors_call c)
          ≡ record { weight = 10000; class = normal; pays_fee = true }

  -- The account that `frame_executive` finds to have signed is the one that the signature names.
  pub record Signing (r : Reading) : Type 0 where
    pub signed_by :
        (e : x.Extrinsic) (who : p.AccountId) (extra : SignedExtra ext.Era)
        → r.signature e ≡ some (who, extra)
        → x.signer e ≡ some who

  -- After a state `s`, an extrinsic's call is dispatched from `t`, which the checks left.
  pub record Dispatched (e : x.Extrinsic) (origin : p.Origin) (s t : Chain p m.Rest) : Type 0 where
    pub not_root : origin ≢ m.root
    pub same_pallet : t.pallet ≡ s.pallet
    pub same_key : m.key_of t.rest ≡ m.key_of s.rest
    pub reported : (x.apply e s).0 ≡ ok (outer_dispatch p m (x.function e) origin t).0
    pub pallet_after :
        (x.apply e s).1.pallet ≡ (outer_dispatch p m (x.function e) origin t).1.pallet
    pub weight_after :
        ext.block_weight (x.apply e s).1.rest
        ≡ ext.block_weight (outer_dispatch p m (x.function e) origin t).1.rest
    pub free_after :
        ext.free_balance (x.apply e s).1.rest
        ≡ ext.free_balance (outer_dispatch p m (x.function e) origin t).1.rest

  -- `apply_extrinsic` runs the checks of a signed extrinsic, and refuses it with the error of one,
  -- or dispatches its call with the origin of the account. What nobody signed is refused, or
  -- dispatched with an origin that is not a signed one. The weight of the block is 0 between blocks,
  -- and when one has begun, and no call writes to it but those of System.
  pub record Applying (r : Reading) : Type 0 where
    pub signed :
        (e : x.Extrinsic) (s : Chain p m.Rest) (who : p.AccountId) (extra : SignedExtra ext.Era)
        → r.signature e ≡ some (who, extra)
        → let run = pre_dispatch extra who (r.get_dispatch_info (x.function e)) (r.len e) s.rest in
          ((why : x.Invalid) × (run.0 ≡ err why)
            × (x.apply e s ≡ (err why, record s { rest = run.1 })))
          ⊎ ((origin : p.Origin) × (run.0 ≡ ok tt)
              × (p.ensure_signed origin ≡ ok who)
              × Dispatched e origin s (record s { rest = run.1 }))
    pub unsigned :
        (e : x.Extrinsic) (s : Chain p m.Rest)
        → r.signature e ≡ none
        → ((why : x.Invalid) × (x.apply e s ≡ (err why, s)))
          ⊎ ((origin : p.Origin) × (t : Chain p m.Rest) × ((who : p.AccountId)
                → p.ensure_signed origin ≢ ok who)
              × (ext.block_weight s.rest ≤ ext.block_weight t.rest)
              × Dispatched e origin s t)
    pub starts :
        (h : x.Header) (s : Chain p m.Rest)
        → ext.block_weight s.rest ≡ 0
        → ext.block_weight (x.initialize h s).rest ≡ 0
    pub ends :
        (b : Block x.Header x.Extrinsic) (s t : Chain p m.Rest)
        → x.execute b s ≡ some t
        → ext.block_weight t.rest ≡ 0
    pub calls_keep :
        (c : OuterCall p m) (origin : p.Origin) (s : Chain p m.Rest)
        → origin ≢ m.root
        → (ext.block_weight (outer_dispatch p m c origin s).1.rest ≡ ext.block_weight s.rest)
          ⊎ IsOverride p m (m.key_of s.rest) origin c
