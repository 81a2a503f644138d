-- ===== src/Tests/ToyNode.antt =====
-- The pallets and the executive of a toy runtime, with the toy chain as its pallet of anchors. The
-- other pallets keep a time and the authorities.
use substrate_scaffold.Prelude.{
  List, [], String, Eq, eq_array, eq_nat, true, ap, ℕ, suc, ◌*◌, ◌≡◌, ◌≢◌, ◌⊎◌, inl, inr, refl,
  Bool, false, Option, none, some, eqb, ◌≤◌, if◌then◌else◌, Bool-cases, arith,
}
use substrate_scaffold.Result.{Result, ok, err}
use substrate_scaffold.Anchors.{State, DispatchError, other}
use substrate_scaffold.Anchors.Permanence.{u64_max}
use substrate_scaffold.Runtime.Calls.{Chain, Outer, Confined, Modules, OuterCall, outer_dispatch}
use substrate_scaffold.Runtime.Api.{Follows, Block, Executive, apply_all}
use substrate_scaffold.Tests.Toy.{origin_signer, block_of, chain, Output}

pub record Rest : Type 0 where
  pub time : ℕ
  pub aura : List String
  pub grandpa : List (String × ℕ)

abbrev pub quiet : Rest
quiet = record { time = 0; aura = []; grandpa = [] }

abbrev pub Toys : Type 0
Toys = Chain chain Rest

-- A pallet whose calls set the time.
abbrev setting : Confined chain Rest
setting = record {
  Calls = ℕ;
  run = λ origin c s. (ok tt, record s { rest = record s.rest { time = c } });
  keeps = λ origin c s. refl;
}

-- `set_storage`
abbrev set_storage : Option Output → State chain → Outer chain Rest
set_storage none c s = (ok tt, record s { pallet = c })
set_storage (some who) c s = (err (other "RequireRootOrigin"), s)

pub set_storage_keeps :
    (origin : Option Output) (c : State chain) (s : Toys)
    → origin ≢ none
    → (set_storage origin c s).1.pallet ≡ s.pallet
set_storage_keeps none c s h = absurd (h refl)
set_storage_keeps (some who) c s h = refl

abbrev pub sudo_account : Output
sudo_account = block_of 1

abbrev same_output : Eq Output
same_output = eq_array

-- `sudo` and `sudo_as`, by the origin that they give to the proposal.
abbrev sudo_if : Bool → Option Output → (Option Output → Outer chain Rest) → Outer chain Rest
sudo_if true given proposal s = (ok tt, (proposal given s).1)
sudo_if false given proposal s = (err (other "RequireSudo"), s)

abbrev sudo_with :
    Option Output → Option Output → (Option Output → Outer chain Rest) → Outer chain Rest
sudo_with none given proposal s = (err (other "RequireSudo"), s)
sudo_with (some who) given proposal s = sudo_if (same_output.eq who sudo_account) given proposal s

sudo_with_ran :
    (origin given : Option Output) (proposal : Option Output → Outer chain Rest) (s : Toys)
    → ((sudo_with origin given proposal s).1.pallet ≡ s.pallet)
      ⊎ ((origin_signer origin ≡ ok sudo_account)
          × ((sudo_with origin given proposal s).1.pallet ≡ (proposal given s).1.pallet))
sudo_with_ran none given proposal s = inl refl
sudo_with_ran (some who) given proposal s = elim (Bool-cases (same_output.eq who sudo_account)) [
  | inl same ↦ inr (ap ok ((same_output.eq_iff who sudo_account).0 same), rw (same, sudo_if))
  | inr differ ↦ inl (rw (differ, sudo_if))
]

pub sudo_ran :
    (origin : Option Output) (proposal : Option Output → Outer chain Rest) (s : Toys)
    → ((sudo_with origin none proposal s).1.pallet ≡ s.pallet)
      ⊎ ((t : Toys) × (origin_signer origin ≡ ok sudo_account)
          × (t.pallet ≡ s.pallet)
          × ((sudo_with origin none proposal s).1.pallet ≡ (proposal none t).1.pallet))
sudo_ran origin proposal s = elim (sudo_with_ran origin none proposal s) [
  | inl e ↦ inl e
  | inr (signed, e) ↦ inr (s, signed, refl, e)
]

pub sudo_as_ran :
    (origin : Option Output) (address : Output) (proposal : Option Output → Outer chain Rest)
    (s : Toys)
    → ((sudo_with origin (some address) proposal s).1.pallet ≡ s.pallet)
      ⊎ ((t : Toys) × (who : Output) × (origin_signer origin ≡ ok sudo_account)
          × (t.pallet ≡ s.pallet)
          × ((sudo_with origin (some address) proposal s).1.pallet
              ≡ (proposal (some who) t).1.pallet))
sudo_as_ran origin address proposal s = elim (sudo_with_ran origin (some address) proposal s) [
  | inl e ↦ inl e
  | inr (signed, e) ↦ inr (s, address, signed, refl, e)
]

pub root_unsigned : (who : Output) → chain.ensure_signed none ≢ ok who
root_unsigned who e = cc (e)

abbrev pub toys : Modules chain
toys = record {
  Rest = Rest;
  root = none;
  root_unsigned = root_unsigned;
  SystemCall = State chain;
  system = set_storage;
  system_keeps = set_storage_keeps;
  timestamp = setting;
  grandpa = setting;
  indices = setting;
  balances = setting;
  randomness_collective_flip = setting;
  set_key = setting;
  key_of = λ rest. sudo_account;
  signed = λ who. some who;
  ensure_signed-signed = λ who. refl;
  sudo = λ origin. sudo_with origin none;
  sudo_ran = sudo_ran;
  Address = Output;
  sudo_as = λ origin address. sudo_with origin (some address);
  sudo_as_ran = sudo_as_ran;
}

abbrev pub Extrinsic : Type 0
Extrinsic = Option Output × OuterCall chain toys

-- An extrinsic that nobody signed is refused.
abbrev apply : Extrinsic → Toys → Result Bool (Result (DispatchError ℕ) (Unit {0})) × Toys
apply (none, c) s = (err false, s)
apply (some who, c) s = let d = outer_dispatch chain toys c (some who) s in (ok d.0, d.1)

pub applied :
    (e : Extrinsic) (s : Toys)
    → ((why : Bool) × ((apply e s).0 ≡ err why) × ((apply e s).1.pallet ≡ s.pallet))
      ⊎ ((origin : Option Output) × (t : Toys) × (origin ≢ none)
          × ((who : Output) → origin_signer origin ≡ ok who → e.0 ≡ some who)
          × (t.pallet ≡ s.pallet)
          × (sudo_account ≡ sudo_account)
          × ((apply e s).0 ≡ ok (outer_dispatch chain toys e.1 origin t).0)
          × ((apply e s).1.pallet ≡ (outer_dispatch chain toys e.1 origin t).1.pallet))
applied (none, c) s = inl (false, refl, refl)
applied (some who, c) s = inr (some who, s, λ e. cc (e), λ other h. cc (h), refl, refl, refl, refl)

abbrev initialize : ℕ → Toys → Toys
initialize h s = record s { pallet = record s.pallet { block_number = h } }

abbrev execute : Block ℕ Extrinsic → Toys → Option Toys
execute b s =
    if eqb b.header (suc s.pallet.block_number)
    then some (apply_all apply b.extrinsics (initialize b.header s))
    else none

pub executed :
    (b : Block ℕ Extrinsic) (s t : Toys)
    → execute b s ≡ some t
    → Follows b.header s.pallet.block_number
      × (t.pallet ≡ (apply_all apply b.extrinsics (initialize b.header s)).pallet)
executed b s t e = elim (Bool-cases (eqb b.header (suc s.pallet.block_number))) [
  | inl same ↦ (inl (ground arith), ground arith)
  | inr differ ↦ absurd (ground arith)
]

pub double : (period : ℕ) → period * 2 ≤ u64_max → period * 2 ≡ period * 2
double period h = refl

abbrev pub toy_executive : Executive chain toys
toy_executive = record {
  Header = ℕ;
  number = λ h. h;
  Extrinsic = Extrinsic;
  signer = λ e. e.0;
  function = λ e. e.1;
  Invalid = Bool;
  initialize = initialize;
  initialized = λ h s. refl;
  apply = apply;
  applied = applied;
  finalize = λ s. (s.pallet.block_number, s);
  finalized = λ s. refl;
  execute = execute;
  executed = executed;
  TransactionValidity = Bool;
  validate = λ e s. (true, s);
  validated = λ e s. refl;
  work = λ n s. s;
  worked = λ n s. refl;
  aura_slot = λ period. period * 2;
  aura_slot_lem = double;
}
