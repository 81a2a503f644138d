-- ===== src/Tests/TollNode.antt =====
-- The executive of a toy runtime that makes the checks of an extrinsic, over the toy chain. The
-- pallets of substrate keep the weight of the block and the balances of the accounts.
use substrate_scaffold.Prelude.{
  ℕ, suc, ◌+◌, ◌*◌, ◌-◌, ◌/◌, ◌≤◌, ◌≡◌, ◌≢◌, ◌⊎◌, inl, inr, refl, Bool, true, false, leb, eqb,
  if◌then◌else◌, Bool-cases, Eq, eq_array, eq_nat, Option, none, some, arith,
}
use substrate_scaffold.Result.{Result, ok, err, Exec, ◌>>◌}
use substrate_scaffold.Anchors.{DispatchError, other}
use substrate_scaffold.Anchors.Permanence.{u64_max}
use substrate_scaffold.Runtime.Calls.{Chain, Confined, Modules, OuterCall, outer_dispatch}
use substrate_scaffold.Runtime.Api.{Follows, Block, Executive, RuntimeVersion, apply_all}
use substrate_scaffold.Runtime.Setup.{
  Perbills, SystemTrait, TransactionPaymentTrait, system_trait, transaction_payment_trait,
}
use substrate_scaffold.Runtime.Extra.{DispatchInfo, normal, SignedExtra, smaller}
use substrate_scaffold.Tests.Toy.{origin_signer, chain, Output, block_of}
use substrate_scaffold.Tests.ToyNode.{root_unsigned}

pub record Toll : Type 0 where
  pub weight : ℕ
  pub funds : Output → ℕ

abbrev pub Tolls : Type 0
Tolls = Chain chain Toll

-- A pallet whose calls do nothing.
abbrev still : Confined chain Toll
still = record { Calls = Unit; run = λ origin c s. (ok tt, s); keeps = λ origin c s. refl }

abbrev pub stills : Modules chain
stills = record {
  Rest = Toll;
  root = none;
  root_unsigned = root_unsigned;
  SystemCall = Unit;
  system = λ origin c s. (ok tt, s);
  system_keeps = λ origin c s h. refl;
  timestamp = still;
  grandpa = still;
  indices = still;
  balances = still;
  randomness_collective_flip = still;
  set_key = still;
  key_of = λ rest. block_of 1;
  sudo = λ origin proposal s. (err (other "RequireSudo"), s);
  sudo_ran = λ origin proposal s. inl refl;
  signed = λ who. some who;
  ensure_signed-signed = λ who. refl;
  Address = Output;
  sudo_as = λ origin address proposal s. (err (other "RequireSudo"), s);
  sudo_as_ran = λ origin address proposal s. inl refl;
}

pub exact : (n k j : ℕ) → n ≤ 100 → n * k ≡ 100 * j → n * k / 100 ≡ j
exact n k j h e = omega arith

abbrev pub percents : Perbills
percents = record {
  Perbill = ℕ;
  from_percent = λ n. n;
  part = λ n k. n * k / 100;
  part-from_percent = exact;
}

abbrev pub same_account : Eq Output
same_account = eq_array

-- `CheckWeight`
abbrev pub weigh :
    {V : Type 0} → SystemTrait percents V → DispatchInfo → ℕ → Exec Toll Bool (Unit {0})
weigh t info len r =
    let limit = percents.part t.available_block_ratio t.maximum_block_weight in
    let next = r.weight + smaller info.weight limit in
    if leb next limit then (ok tt, record r { weight = next }) else (err true, r)

abbrev pub pay_from : Output → ℕ → (Output → ℕ) → Output → ℕ
pay_from who fee funds a = if same_account.eq a who then funds a - fee else funds a

-- `ChargeTransactionPayment`
abbrev pub charge :
    TransactionPaymentTrait → ℕ → Output → DispatchInfo → ℕ → Exec Toll Bool (Unit {0})
charge t tip who info len r =
    let fee =
      t.transaction_base_fee + t.transaction_byte_fee * len + t.weight_to_fee info.weight + tip in
    if leb fee (r.funds who)
    then (ok tt, record r { funds = pay_from who fee r.funds })
    else (err true, r)

pub record Extrinsic : Type 0 where
  pub who : Option Output
  pub function : OuterCall chain stills
  pub tip : ℕ

abbrev pub call_info : DispatchInfo
call_info = record { weight = 10000; class = normal; pays_fee = true }

abbrev pub extra_of : ℕ → SignedExtra (Unit {0})
extra_of tip = record { era = tt; nonce = 0; tip = tip }

-- All extrinsics are 100 bytes.
abbrev pub checks : Extrinsic → Output → Exec Toll Bool (Unit {0})
checks e who =
    weigh {V = RuntimeVersion (Unit {0})} (system_trait percents tt) call_info 100
    >> charge transaction_payment_trait e.tip who call_info 100

abbrev Report : Type 0
Report = Result Bool (Result (DispatchError ℕ) (Unit {0})) × Tolls

abbrev finish : Extrinsic → Output → Tolls → Result Bool (Unit {0}) × Toll → Report
finish e who s (ok u, r) =
    let d = outer_dispatch chain stills e.function (some who) (record s { rest = r }) in
    (ok d.0, d.1)
finish e who s (err why, r) = (err why, record s { rest = r })

abbrev apply_by : Option Output → Extrinsic → Tolls → Report
apply_by none e s = (err false, s)
apply_by (some who) e s = finish e who s (checks e who s.rest)

abbrev apply : Extrinsic → Tolls → Report
apply e s = apply_by e.who e s

abbrev Applied : Option Output → Extrinsic → Tolls → Report → Type 0
Applied by e s report =
    ((why : Bool) × (report.0 ≡ err why) × (report.1.pallet ≡ s.pallet))
    ⊎ ((origin : Option Output) × (t : Tolls) × (origin ≢ none)
        × ((account : Output) → origin_signer origin ≡ ok account → by ≡ some account)
        × (t.pallet ≡ s.pallet)
        × (block_of 1 ≡ block_of 1)
        × (report.0 ≡ ok (outer_dispatch chain stills e.function origin t).0)
        × (report.1.pallet ≡ (outer_dispatch chain stills e.function origin t).1.pallet))

finished :
    (e : Extrinsic) (who : Output) (s : Tolls) (out : Result Bool (Unit {0}) × Toll)
    → Applied (some who) e s (finish e who s out)
finished e who s (ok u, r) =
    inr (some who, record s { rest = r }, λ h. cc (h), λ account h. cc (h), refl, refl, refl, refl)
finished e who s (err why, r) = inl (why, refl, refl)

report_by : (who : Option Output) (e : Extrinsic) (s : Tolls) → Applied who e s (apply_by who e s)
report_by none e s = inl (false, refl, refl)
report_by (some who) e s = finished e who s (checks e who s.rest)

pub applied : (e : Extrinsic) (s : Tolls) → Applied e.who e s (apply e s)
applied e s = report_by e.who e s

abbrev initialize : ℕ → Tolls → Tolls
initialize h s = record s { pallet = record s.pallet { block_number = h } }

-- At the end of a block.
abbrev pub cleared : Tolls → Tolls
cleared s = record s { rest = record s.rest { weight = 0 } }

abbrev pub execute : Block ℕ Extrinsic → Tolls → Option Tolls
execute b s =
    if eqb b.header (suc s.pallet.block_number)
    then some (cleared (apply_all apply b.extrinsics (initialize b.header s)))
    else none

pub executed :
    (b : Block ℕ Extrinsic) (s t : Tolls)
    → execute b s ≡ some t
    → Follows b.header s.pallet.block_number
      × (t.pallet ≡ (apply_all apply b.extrinsics (initialize b.header s)).pallet)
executed b s t e = elim (Bool-cases (eqb b.header (suc s.pallet.block_number))) [
  | inl same ↦ (inl (ground arith), ground arith)
  | inr differ ↦ absurd (ground arith)
]

pub doubled : (period : ℕ) → period * 2 ≤ u64_max → period * 2 ≡ period * 2
doubled period h = refl

abbrev pub toll_executive : Executive chain stills
toll_executive = record {
  Header = ℕ;
  number = λ h. h;
  Extrinsic = Extrinsic;
  signer = λ e. e.who;
  function = λ e. e.function;
  Invalid = Bool;
  initialize = initialize;
  initialized = λ h s. refl;
  apply = apply;
  applied = applied;
  finalize = λ s. (s.pallet.block_number, cleared s);
  finalized = λ s. refl;
  execute = execute;
  executed = executed;
  TransactionValidity = Bool;
  validate = λ e s. (true, s);
  validated = λ e s. refl;
  work = λ n s. s;
  worked = λ n s. refl;
  aura_slot = λ period. period * 2;
  aura_slot_lem = doubled;
}
