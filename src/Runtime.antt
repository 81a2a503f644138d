-- ===== src/Runtime.antt =====
-- vasaplatsen/runtime/src/lib.rs: the runtime's constants, and how it sets up the pallet of
-- anchors. What is external here is in `Externals`.
pub mod Accounts
pub mod Members
pub mod Binding
pub mod Endowment
pub mod Calls
pub mod Reaching
pub mod Api
pub mod Blocks
pub mod Onchain
pub mod Revokers
pub mod Finality
pub mod Genesis
pub mod Setup
pub mod Extra
use substrate_scaffold.Prelude.{ℕ, ◌*◌, ◌/◌, ◌≡◌, List, Array, length, eq_nat, eq_array}
use substrate_scaffold.FromAlt.{Into, FromAlt, from_into}
use substrate_scaffold.Hasher.{Digest, hash_each, hash_u8, hash_array32}
use substrate_scaffold.Result.{Result}
use substrate_scaffold.Storage.{StorageMap}
use substrate_scaffold.Anchors.{Trait, Pallet, AnchorKey, LeafKey, Revokable, UnixTimeSeconds}

abbrev pub millisecs_per_block : ℕ
millisecs_per_block = 6000

abbrev pub slot_duration : ℕ
slot_duration = millisecs_per_block

-- In blocks.
abbrev pub minutes : ℕ
minutes = 60000 / millisecs_per_block

abbrev pub hours : ℕ
hours = minutes * 60

abbrev pub days : ℕ
days = hours * 24

abbrev pub minimum_period : ℕ
minimum_period = slot_duration / 2

abbrev pub existential_deposit : ℕ
existential_deposit = 500

abbrev pub transaction_byte_fee : ℕ
transaction_byte_fee = 1

abbrev pub maximum_block_length : ℕ
maximum_block_length = 5 * 1024 * 1024

-- The crates `blake2`, `generic-array`, `sp_runtime` and `system`, as far as the runtime uses
-- them here. Their documentation says that Blake2s has 32 bytes of output, that the conversion of
-- a generic array keeps its elements, and that an account is 32 bytes.
pub record Externals : Type 1 where
  pub Blake2s : Digest
  pub into_array : Into (Array ℕ Blake2s.output_size) (Array ℕ 32)
  pub items-into : (x : Array ℕ Blake2s.output_size) → (into_array.into x).items ≡ x.items
  pub AccountId : Type 0
  pub as_ref : AccountId → List ℕ
  pub length-as_ref : (a : AccountId) → length (as_ref a) ≡ 32
  pub as_ref-injective : (a b : AccountId) → as_ref a ≡ as_ref b → a ≡ b
  pub Origin : Type 0
  pub SystemError : Type 0
  pub ensure_signed : Origin → Result SystemError AccountId

module _ (x : Externals) where
  -- `fn hash_account_id`: the account's bytes, as a slice. That they are 32, which
  -- `debug_assert_eq!` checks, is `length-as_ref`.
  unfoldable pub hash_account_bytes : x.AccountId → x.Blake2s.State → x.Blake2s.State
  hash_account_bytes acct hasher = let bs = x.as_ref acct in hash_each x.Blake2s bs hasher

  -- `impl revocable_anchors::Trait for Runtime`
  abbrev pub runtime : Trait
  runtime = record {
    AccountId = x.AccountId;
    Origin = x.Origin;
    SystemError = x.SystemError;
    ensure_signed = x.ensure_signed;
    TreeHash = x.Blake2s;
    TreeHashOut = Array ℕ 32;
    hash_out = hash_array32;
    eq_out = eq_array;
    from_out = from_into ⦃i = x.into_array⦄;
    hash_account_id = hash_account_bytes;
  }

  -- The entry `Anchors` of `construct_runtime!`, with its two storage maps.
  abbrev pub anchors_pallet :
      StorageMap (AnchorKey runtime) (Revokable ℕ)
      → StorageMap (LeafKey runtime) UnixTimeSeconds
      → Pallet
  anchors_pallet anchors leaves = record {
    trait = runtime;
    Anchors = anchors;
    SuspendedLeaves = leaves;
  }
