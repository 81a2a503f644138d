-- ===== src/Anchors/Mock.antt =====
-- vasaplatsen/runtime/src/revocable_anchors/mod.rs, module `tests`: the mock runtime, whose
-- accounts are `u64`.
pub mod Bytes
pub mod Scenarios
pub mod Members
pub mod Passes
use substrate_scaffold.Prelude.{ℕ, ◌/◌, ◌^◌, ◌≡◌, List, [], ◌∷◌, Array, eq_nat, eq_array}
use substrate_scaffold.FromAlt.{Into, from_into}
use substrate_scaffold.Hasher.{Digest, hash_u8, hash_array32}
use substrate_scaffold.Result.{Result, ok}
use substrate_scaffold.Storage.{StorageMap}
use substrate_scaffold.Anchors.{
  Trait, Pallet, State, AnchorKey, LeafKey, Revokable, UnixTimeSeconds,
}
use Prim.Native.Nat.{◌%◌}

-- `u64::to_be_bytes` of the language's library.
abbrev pub to_be_bytes : ℕ → List ℕ
to_be_bytes n =
    n / 2 ^ 56 % 256
    ∷ n / 2 ^ 48 % 256
    ∷ n / 2 ^ 40 % 256
    ∷ n / 2 ^ 32 % 256
    ∷ n / 2 ^ 24 % 256
    ∷ n / 2 ^ 16 % 256
    ∷ n / 2 ^ 8 % 256
    ∷ n % 256
    ∷ []

-- Blake2s, and the origin of `impl_outer_origin!`: `ensure_signed` gives the account that signed.
pub record MockExternals : Type 1 where
  pub Blake2s : Digest
  pub into_array : Into (Array ℕ Blake2s.output_size) (Array ℕ 32)
  pub Origin : Type 0
  pub signed : ℕ → Origin
  pub SystemError : Type 0
  pub ensure_signed : Origin → Result SystemError ℕ
  pub ensure_signed-signed : (who : ℕ) → ensure_signed (signed who) ≡ ok who
  -- The block that the default genesis of the system module leaves.
  pub genesis_number : ℕ
  pub genesis_number-first : genesis_number ≡ 1

module _ (x : MockExternals) where
  -- `hash_account_id` of `impl Trait for Test`
  unfoldable pub hash_u64_account : ℕ → x.Blake2s.State → x.Blake2s.State
  hash_u64_account account_id hasher = x.Blake2s.input hasher (to_be_bytes account_id)

  -- `impl Trait for Test`
  abbrev pub test_trait : Trait
  test_trait = record {
    AccountId = ℕ;
    Origin = x.Origin;
    SystemError = x.SystemError;
    ensure_signed = x.ensure_signed;
    TreeHash = x.Blake2s;
    TreeHashOut = Array ℕ 32;
    hash_out = hash_array32;
    eq_out = eq_array;
    from_out = from_into ⦃i = x.into_array⦄;
    hash_account_id = hash_u64_account;
  }

  abbrev pub test_pallet :
      StorageMap (AnchorKey test_trait) (Revokable ℕ)
      → StorageMap (LeafKey test_trait) UnixTimeSeconds
      → Pallet
  test_pallet anchors leaves = record {
    trait = test_trait;
    Anchors = anchors;
    SuspendedLeaves = leaves;
  }

  -- `new_test_ext`: the storage of the default genesis.
  abbrev pub new_test_ext :
      (anchors : StorageMap (AnchorKey test_trait) (Revokable ℕ))
      (leaves : StorageMap (LeafKey test_trait) UnixTimeSeconds)
      → State (test_pallet anchors leaves)
  new_test_ext anchors leaves = record {
    anchors = anchors.empty;
    suspended_leaves = leaves.empty;
    block_number = x.genesis_number;
  }
