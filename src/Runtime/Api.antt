-- ===== src/Runtime/Api.antt =====
-- vasaplatsen/runtime/src/lib.rs: the runtime's version, its blocks, and the entry points by which
-- a node runs it. The crates `frame_executive` and `pallet_aura` are in `Executive`.
use substrate_scaffold.Prelude.{
  ℕ, suc, ◌*◌, ◌≤◌, ◌≡◌, ◌≢◌, ◌⊎◌, String, Option, some, List, [], ◌∷◌,
}
use substrate_scaffold.Result.{Result, ok, err}
use substrate_scaffold.Anchors.{Pallet, DispatchError}
use substrate_scaffold.Anchors.Permanence.{u64_max}
use substrate_scaffold.Runtime.{minimum_period}
use substrate_scaffold.Runtime.Calls.{Chain, Modules, OuterCall, outer_dispatch}

-- `generic::Block`
pub record Block (Header Extrinsic : Type 0) : Type 0 where
  pub header : Header
  pub extrinsics : List Extrinsic

-- The extrinsics of a block, each after the one before it.
abbrev pub apply_all : {X R S : Type 0} → (X → S → R × S) → List X → S → S
apply_all apply [] s = s
apply_all apply (x ∷ xs) s = apply_all apply xs (apply x s).1

-- The number of a block after that in the storage of the system pallet. The storage of the genesis
-- has 1 there, as the block after it has.
abbrev pub Follows : ℕ → ℕ → Type 0
Follows n last = (n ≡ suc last) ⊎ ((n ≡ 1) × (last ≡ 1))

-- `initialize_block` sets the block number; the pallet `Anchors` has no hook for it, nor for the
-- end of a block. `signer` is the account whose signature an extrinsic bears, if it bears a valid
-- one, its address resolved. `apply_extrinsic` refuses the extrinsic with an error, or takes its
-- fee, which leaves the sudo key as it is, and dispatches its call, with an origin that is signed
-- by no other account than `signer`, and is not `root`. `execute_block` runs a whole block, and
-- panics if it does not follow the last one or is wrong. `validate_transaction` and the offchain
-- workers write nothing to the pallet `Anchors`.
pub record Executive (p : Pallet) (m : Modules p) : Type 1 where
  pub Header : Type 0
  pub number : Header → ℕ
  pub Extrinsic : Type 0
  pub signer : Extrinsic → Option p.AccountId
  pub function : Extrinsic → OuterCall p m
  pub Invalid : Type 0
  pub initialize : Header → Chain p m.Rest → Chain p m.Rest
  pub initialized :
      (h : Header) (s : Chain p m.Rest)
      → (initialize h s).pallet ≡ record s.pallet { block_number = number h }
  pub apply :
      Extrinsic
      → Chain p m.Rest
      → Result Invalid (Result (DispatchError p.SystemError) (Unit {0})) × Chain p m.Rest
  pub applied :
      (e : Extrinsic) (s : Chain p m.Rest)
      → ((why : Invalid) × ((apply e s).0 ≡ err why) × ((apply e s).1.pallet ≡ s.pallet))
        ⊎ ((origin : p.Origin) × (t : Chain p m.Rest) × (origin ≢ m.root)
            × ((who : p.AccountId) → p.ensure_signed origin ≡ ok who → signer e ≡ some who)
            × (t.pallet ≡ s.pallet)
            × (m.key_of t.rest ≡ m.key_of s.rest)
            × ((apply e s).0 ≡ ok (outer_dispatch p m (function e) origin t).0)
            × ((apply e s).1.pallet ≡ (outer_dispatch p m (function e) origin t).1.pallet))
  pub finalize : Chain p m.Rest → Header × Chain p m.Rest
  pub finalized : (s : Chain p m.Rest) → (finalize s).1.pallet ≡ s.pallet
  pub execute : Block Header Extrinsic → Chain p m.Rest → Option (Chain p m.Rest)
  pub executed :
      (b : Block Header Extrinsic) (s t : Chain p m.Rest)
      → execute b s ≡ some t
      → Follows (number b.header) s.pallet.block_number
        × (t.pallet ≡ (finalize (apply_all apply b.extrinsics (initialize b.header s))).1.pallet)
  pub TransactionValidity : Type 0
  pub validate : Extrinsic → Chain p m.Rest → TransactionValidity × Chain p m.Rest
  pub validated : (e : Extrinsic) (s : Chain p m.Rest) → (validate e s).1.pallet ≡ s.pallet
  pub work : ℕ → Chain p m.Rest → Chain p m.Rest
  pub worked : (n : ℕ) (s : Chain p m.Rest) → (work n s).pallet ≡ s.pallet
  pub aura_slot : ℕ → ℕ
  pub aura_slot_lem : (period : ℕ) → period * 2 ≤ u64_max → aura_slot period ≡ period * 2

-- `RuntimeVersion`; the list of the interfaces is made by a macro.
pub record RuntimeVersion (Apis : Type 0) : Type 0 where
  pub spec_name : String
  pub impl_name : String
  pub authoring_version : ℕ
  pub spec_version : ℕ
  pub impl_version : ℕ
  pub apis : Apis

pub record NativeVersion (Apis Authors : Type 0) : Type 0 where
  pub runtime_version : RuntimeVersion Apis
  pub can_author_with : Authors

-- `VERSION`, which `fn version` of the interface `Core` returns.
abbrev pub version : {Apis : Type 0} → Apis → RuntimeVersion Apis
version apis = record {
  spec_name = "vasaplatsen";
  impl_name = "vasaplatsen-ruts";
  authoring_version = 2;
  spec_version = 3;
  impl_version = 3;
  apis = apis;
}

abbrev pub native_version : {Apis Authors : Type 0} → Apis → Authors → NativeVersion Apis Authors
native_version apis default = record { runtime_version = version apis; can_author_with = default }

module _ {p : Pallet} {m : Modules p} (x : Executive p m) where
  unfoldable pub execute_block :
      Block x.Header x.Extrinsic → Chain p m.Rest → Option (Chain p m.Rest)
  execute_block block = x.execute block

  unfoldable pub initialize_block : x.Header → Chain p m.Rest → Chain p m.Rest
  initialize_block header = x.initialize header

  unfoldable pub apply_extrinsic :
      x.Extrinsic
      → Chain p m.Rest
      → Result x.Invalid (Result (DispatchError p.SystemError) (Unit {0})) × Chain p m.Rest
  apply_extrinsic extrinsic = x.apply extrinsic

  unfoldable pub finalize_block : Chain p m.Rest → x.Header × Chain p m.Rest
  finalize_block = x.finalize

  -- `Aura::slot_duration()`, which reads the minimum period of the pallet for timestamps.
  unfoldable pub aura_slot_duration : ℕ
  aura_slot_duration = x.aura_slot minimum_period

  unfoldable pub validate_transaction :
      x.Extrinsic → Chain p m.Rest → x.TransactionValidity × Chain p m.Rest
  validate_transaction tx = x.validate tx

  unfoldable pub offchain_worker : ℕ → Chain p m.Rest → Chain p m.Rest
  offchain_worker number = x.work number

-- What the rest of the interface is handed to: the metadata that `construct_runtime!` makes, the
-- crate `sp_inherents`, the keys of `impl_opaque_keys!`, and the pallet RandomnessCollectiveFlip.
pub record Interfaces {p : Pallet} {m : Modules p} (x : Executive p m) : Type 1 where
  pub Metadata : Type 0
  pub OpaqueMetadata : Type 0
  pub runtime_metadata : Metadata
  pub into_opaque : Metadata → OpaqueMetadata
  pub InherentData : Type 0
  pub CheckInherentsResult : Type 0
  pub create_extrinsics : InherentData → List x.Extrinsic
  pub check_extrinsics : InherentData → Block x.Header x.Extrinsic → CheckInherentsResult
  pub Hash : Type 0
  pub seed_of : m.Rest → Hash
  pub generate : Option (List ℕ) → List ℕ

module _ {p : Pallet} {m : Modules p} {x : Executive p m} (i : Interfaces x) where
  abbrev pub metadata : i.OpaqueMetadata
  metadata = i.into_opaque i.runtime_metadata

  unfoldable pub inherent_extrinsics : i.InherentData → List x.Extrinsic
  inherent_extrinsics inherents = i.create_extrinsics inherents

  unfoldable pub check_inherents :
      Block x.Header x.Extrinsic → i.InherentData → i.CheckInherentsResult
  check_inherents block inherents = i.check_extrinsics inherents block

  unfoldable pub random_seed : Chain p m.Rest → i.Hash
  random_seed s = i.seed_of s.rest

  unfoldable pub generate_session_keys : Option (List ℕ) → List ℕ
  generate_session_keys seed = i.generate seed
