-- ===== src/Runtime/Setup.antt =====
-- vasaplatsen/runtime/src/lib.rs: how the runtime sets up the pallets of substrate whose traits
-- have values, `system`, `balances` and `transaction_payment`. The types that the traits name are
-- those of the crates; their other values are in the modules beside this one.
use substrate_scaffold.Prelude.{ℕ, ◌*◌, ◌≤◌, ◌≡◌}
use substrate_scaffold.Runtime.{maximum_block_length, transaction_byte_fee, existential_deposit}
use substrate_scaffold.Runtime.Api.{RuntimeVersion, version}

-- `sp_runtime::Perbill`: a part of one, in billionths, and the part of a number, which is exact
-- where that is a number.
pub record Perbills : Type 1 where
  pub Perbill : Type 0
  pub from_percent : ℕ → Perbill
  pub part : Perbill → ℕ → ℕ
  pub part-from_percent : (n k j : ℕ) → n ≤ 100 → n * k ≡ 100 * j → part (from_percent n) k ≡ j

-- `system::Trait`
pub record SystemTrait (b : Perbills) (Version : Type 0) : Type 0 where
  pub block_hash_count : ℕ
  pub maximum_block_weight : ℕ
  pub maximum_block_length : ℕ
  pub available_block_ratio : b.Perbill
  pub version : Version

-- `balances::Trait`
pub record BalancesTrait : Type 0 where
  pub existential_deposit : ℕ
  pub transfer_fee : ℕ
  pub creation_fee : ℕ

-- `transaction_payment::Trait`
pub record TransactionPaymentTrait : Type 0 where
  pub transaction_base_fee : ℕ
  pub transaction_byte_fee : ℕ
  pub weight_to_fee : ℕ → ℕ

abbrev pub block_hash_count : ℕ
block_hash_count = 250

abbrev pub maximum_block_weight : ℕ
maximum_block_weight = 1000000

abbrev pub available_block_ratio : (b : Perbills) → b.Perbill
available_block_ratio b = b.from_percent 75

-- `impl system::Trait for Runtime`
abbrev pub system_trait :
    {Apis : Type 0} (b : Perbills) → Apis → SystemTrait b (RuntimeVersion Apis)
system_trait b apis = record {
  block_hash_count = block_hash_count;
  maximum_block_weight = maximum_block_weight;
  maximum_block_length = maximum_block_length;
  available_block_ratio = available_block_ratio b;
  version = version apis;
}

abbrev pub transfer_fee : ℕ
transfer_fee = 0

abbrev pub creation_fee : ℕ
creation_fee = 0

-- `impl balances::Trait for Runtime`
abbrev pub balances_trait : BalancesTrait
balances_trait = record {
  existential_deposit = existential_deposit;
  transfer_fee = transfer_fee;
  creation_fee = creation_fee;
}

abbrev pub transaction_base_fee : ℕ
transaction_base_fee = 0

-- `ConvertInto`, from a weight to a balance.
abbrev pub weight_to_fee : ℕ → ℕ
weight_to_fee weight = weight

-- `impl transaction_payment::Trait for Runtime`
abbrev pub transaction_payment_trait : TransactionPaymentTrait
transaction_payment_trait = record {
  transaction_base_fee = transaction_base_fee;
  transaction_byte_fee = transaction_byte_fee;
  weight_to_fee = weight_to_fee;
}
