-- ===== src/ChainSpec.antt =====
-- vasaplatsen/src/chain_spec.rs: the chain specifications that the node knows, and the genesis of
-- each. What panics returns `none`.
pub mod Genesis
pub mod Names
pub mod Seeds
pub mod Validators
use Prim.Native.String.{◌++◌}
use text.Mathlib.Text.{◌==◌}
use substrate_scaffold.Prelude.{
  ℕ, ◌^◌, ◌≡◌, String, Bool, Option, none, some, List, [], ◌∷◌, map, if◌then◌else◌,
}
use substrate_scaffold.Result.{Result, ok}

-- `sp_core::Public` with the `Pair` behind it: a pair from a secret string or an error, its public
-- part, and the public key that an address stands for.
pub record Public : Type 1 where
  pub Key : Type 0
  pub Pair : Type 0
  pub from_string : String → Option Pair
  pub public : Pair → Key
  pub from_ss58 : String → Option Key

-- The key types and the account of a public key (`AccountPublic::from(…).into_account()`), the
-- runtime's code, and `sc_service::ChainSpec`, which `from_genesis` builds and from which its
-- parts can be read back.
pub record Externals : Type 1 where
  pub Aura : Public
  pub Grandpa : Public
  pub Sr25519 : Public
  pub AccountId : Type 0
  pub into_account : Sr25519.Key → AccountId
  pub wasm_binary : List ℕ
  pub Vesting : Type 0
  pub ChangesTrie : Type 0
  pub default_changes_trie : ChangesTrie
  pub Endpoints : Type 0
  pub endpoints : List (String × ℕ) → Endpoints

abbrev pub staging_telemetry_url : String
staging_telemetry_url = "wss://telemetry.polkadot.io/submit/"

pub data Alternative : Type 0 where
  development local_testnet ved : Alternative

-- `fn from`
unfoldable pub from : String → Option Alternative
from s =
    if s == "ved"
    then some ved
    else if s == "dev"
    then some development
    else if s == ""
    then some local_testnet
    else if s == "local"
    then some local_testnet
    else none

infixl 5 ◌>>=◌
abbrev pub ◌>>=◌ {ℓ κ} : {A : Type ℓ} {B : Type κ} → Option A → (A → Option B) → Option B
none >>= f = none
some a >>= f = f a

-- `expect` and `unwrap` panic on a failure.
unfoldable pub get_from_seed : (k : Public) → String → Option k.Key
get_from_seed k seed = do pair ← k.from_string ("//" ++ seed); some (k.public pair)

unfoldable pub pubkey_from_ss58 : (k : Public) → String → Option k.Key
pubkey_from_ss58 k ss58 = k.from_ss58 ss58

-- `GenesisConfig`, with the fields that the code sets.
pub record GenesisConfig (x : Externals) : Type 0 where
  pub code : List ℕ
  pub changes_trie_config : x.ChangesTrie
  pub indices : List x.AccountId
  pub balances : List (x.AccountId × ℕ)
  pub vesting : List x.Vesting
  pub sudo_key : x.AccountId
  pub aura_authorities : List x.Aura.Key
  pub grandpa_authorities : List (x.Grandpa.Key × ℕ)

module _ (x : Externals) where
  abbrev pub Authority : Type 0
  Authority = x.Aura.Key × x.Grandpa.Key

  unfoldable pub get_account_id_from_seed : String → Option x.AccountId
  unfolding get_from_seed
  get_account_id_from_seed seed = do key ← get_from_seed x.Sr25519 seed; some (x.into_account key)

  unfoldable pub get_authority_keys_from_seed : String → Option Authority
  unfolding get_from_seed
  get_authority_keys_from_seed s = do
    aura ← get_from_seed x.Aura s
    grandpa ← get_from_seed x.Grandpa s
    some (aura, grandpa)

  unfoldable pub account_id_from_ss58 : String → Option x.AccountId
  unfolding pubkey_from_ss58
  account_id_from_ss58 ss58 = do key ← pubkey_from_ss58 x.Sr25519 ss58; some (x.into_account key)

  unfoldable pub testnet_genesis : List Authority → x.AccountId → List x.AccountId → GenesisConfig x
  testnet_genesis initial_authorities root_key endowed_accounts = record {
    code = x.wasm_binary;
    changes_trie_config = x.default_changes_trie;
    indices = endowed_accounts;
    balances = map (λ k. (k, 2 ^ 60)) endowed_accounts;
    vesting = [];
    sudo_key = root_key;
    aura_authorities = map (λ a. a.0) initial_authorities;
    grandpa_authorities = map (λ a. (a.1, 1)) initial_authorities;
  }

  -- The elements of a `vec![…]`, evaluated in order.
  unfoldable pub all : {A : Type 0} → (String → Option A) → List String → Option (List A)
  all f [] = some []
  all f (s ∷ rest) = do a ← f s; others ← all f rest; some (a ∷ others)

  abbrev pub endowed_development : List String
  endowed_development = "Alice" ∷ "Bob" ∷ "Alice//stash" ∷ "Bob//stash" ∷ []

  abbrev pub endowed_local : List String
  endowed_local =
      "Alice" ∷ "Bob" ∷ "Charlie" ∷ "Dave" ∷ "Eve" ∷ "Ferdie" ∷ "Alice//stash" ∷ "Bob//stash"
      ∷ "Charlie//stash" ∷ "Dave//stash" ∷ "Eve//stash" ∷ "Ferdie//stash" ∷ []

  unfoldable pub authority_from_ss58 : String → String → Option Authority
  unfolding pubkey_from_ss58
  authority_from_ss58 aura grandpa = do
    a ← pubkey_from_ss58 x.Aura aura
    g ← pubkey_from_ss58 x.Grandpa grandpa
    some (a, g)

  -- The closure of each alternative that `ChainSpec::from_genesis` is given.
  unfoldable pub genesis : Alternative → Option (GenesisConfig x)
  genesis development = do
    authorities ← all get_authority_keys_from_seed ("Alice" ∷ [])
    root ← get_account_id_from_seed "Alice"
    endowed ← all get_account_id_from_seed endowed_development
    some (testnet_genesis authorities root endowed)
  genesis local_testnet = do
    authorities ← all get_authority_keys_from_seed ("Alice" ∷ "Bob" ∷ [])
    root ← get_account_id_from_seed "Alice"
    endowed ← all get_account_id_from_seed endowed_local
    some (testnet_genesis authorities root endowed)
  genesis ved = do
    first ←
        authority_from_ss58 "5HaurafVJ6PmLx9M5hWkV7kbZcipQ814u2hR5Z7Wc8qnQmaH"
          "5CgranHpy1PuPQpzvREZdsDnceZ49KyCg8twUzCc7vyQgqYE"
    second ←
        authority_from_ss58 "5HauraUBhCfvtN2qTvsqtPEAyhSHzxE11xDyjhzEUkxrtDY8"
          "5GgranquAWAHDd4CRZpkk7KPzMstv2gwxAfmRCJ2LpKmqiY9"
    root ← account_id_from_ss58 "5Groot2sFDCh8Vo9G8kzGmjEK6tFJvYZSJZMQMoJXn7M1179"
    endowed ← all account_id_from_ss58 ("5DtressiVt3ZHgdAe3HyPrqmPAxHQSaNKkji9ACjriWYon6Z" ∷ [])
    some (testnet_genesis (first ∷ second ∷ []) root endowed)

  -- What `from_genesis` is given besides the boot nodes, protocol, properties and extensions,
  -- which are empty for all three.
  pub record ChainSpec : Type 0 where
    pub name : String
    pub id : String
    pub constructor : Unit {0} → Option (GenesisConfig x)
    pub telemetry_endpoints : Option x.Endpoints

  -- The `match` of `load`. No genesis is built there, since the closures are not called.
  unfoldable pub spec_of : Alternative → ChainSpec
  spec_of development = record {
    name = "Development";
    id = "dev";
    constructor = λ _. genesis development;
    telemetry_endpoints = none;
  }
  spec_of local_testnet = record {
    name = "Local Testnet";
    id = "local_testnet";
    constructor = λ _. genesis local_testnet;
    telemetry_endpoints = none;
  }
  spec_of ved = record {
    name = "Vasaplatsen Ved Testnet";
    id = "vasaplatsen_ved_testnet";
    constructor = λ _. genesis ved;
    telemetry_endpoints = some (x.endpoints ((staging_telemetry_url, 1) ∷ []));
  }

  -- `fn load`
  unfoldable pub load : Alternative → Result String ChainSpec
  unfolding spec_of
  load alternative = ok (spec_of alternative)
