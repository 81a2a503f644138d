-- ===== src/Tests/KeyExamples.antt =====
-- The theorems about chain_spec.rs and the names that cli.rs loads, over keys that are the texts that
-- they are made from.
use Prim.Native.String.{◌++◌}
use mathlib.Core.List.{zip}
use substrate_scaffold.Prelude.{ℕ, ◌*◌, ◌^◌, ◌≡◌, ◌⊎◌, refl, String, none, some, List, [], ◌∷◌}
use substrate_scaffold.Result.{ok}
use substrate_scaffold.ChainSpec.{
  Public, Externals, Alternative, development, ved, GenesisConfig, get_from_seed, pubkey_from_ss58,
  get_account_id_from_seed, get_authority_keys_from_seed, account_id_from_ss58, authority_from_ss58,
  testnet_genesis, all, genesis, ChainSpec,
}
use substrate_scaffold.ChainSpec.Names.{IsSpelled}
use substrate_scaffold.ChainSpec.Genesis.{keys, total, IsWeighted, testnet_genesis_lem}
use substrate_scaffold.ChainSpec.Seeds.{AllSeeds}
use substrate_scaffold.Cli.{load_spec}
use substrate_scaffold.Cli.Names.{id_of, load_spec_lem}

abbrev pub texts : Public
texts = record {
  Key = String;
  Pair = String;
  from_string = λ s. some s;
  public = λ pair. pair;
  from_ss58 = λ s. some s;
}

abbrev pub toy_keys : Externals
toy_keys = record {
  Aura = texts;
  Grandpa = texts;
  Sr25519 = texts;
  AccountId = String;
  into_account = λ key. key;
  wasm_binary = [];
  Vesting = Unit {0};
  ChangesTrie = Unit {0};
  default_changes_trie = tt;
  Endpoints = List (String × ℕ);
  endpoints = λ l. l;
}

abbrev toy_genesis : GenesisConfig toy_keys
toy_genesis = testnet_genesis toy_keys (("a", "g") ∷ []) "r" ("r" ∷ "s" ∷ [])

testnet_genesis_lem_example :
    let authorities : List (String × String) = ("a", "g") ∷ [] in
    (zip toy_genesis.aura_authorities (keys toy_genesis.grandpa_authorities) ≡ authorities)
    × IsWeighted toy_genesis.grandpa_authorities
    × (keys toy_genesis.balances ≡ toy_genesis.indices)
    × (toy_genesis.indices ≡ "r" ∷ "s" ∷ [])
    × (total toy_genesis.balances ≡ 2 * 2 ^ 60)
testnet_genesis_lem_example = testnet_genesis_lem toy_keys (("a", "g") ∷ []) "r" ("r" ∷ "s" ∷ [])

abbrev pub dev_genesis : GenesisConfig toy_keys
dev_genesis = record {
  code = [];
  changes_trie_config = tt;
  indices = "//Alice" ∷ "//Bob" ∷ "//Alice//stash" ∷ "//Bob//stash" ∷ [];
  balances =
      ("//Alice", 2 ^ 60)
      ∷ ("//Bob", 2 ^ 60)
      ∷ ("//Alice//stash", 2 ^ 60)
      ∷ ("//Bob//stash", 2 ^ 60)
      ∷ [];
  vesting = [];
  sudo_key = "//Alice";
  aura_authorities = "//Alice" ∷ [];
  grandpa_authorities = ("//Alice", 1) ∷ [];
}

pub genesis_development : genesis toy_keys development ≡ some dev_genesis
unfolding genesis get_from_seed get_account_id_from_seed get_authority_keys_from_seed
    testnet_genesis all
genesis_development = refl

-- All keys have one account.
abbrev pub one_account : Externals
one_account = record toy_keys { into_account = λ key. "one" }

abbrev ved_genesis : GenesisConfig one_account
ved_genesis = record {
  code = [];
  changes_trie_config = tt;
  indices = "one" ∷ [];
  balances = ("one", 2 ^ 60) ∷ [];
  vesting = [];
  sudo_key = "one";
  aura_authorities =
      "5HaurafVJ6PmLx9M5hWkV7kbZcipQ814u2hR5Z7Wc8qnQmaH"
      ∷ "5HauraUBhCfvtN2qTvsqtPEAyhSHzxE11xDyjhzEUkxrtDY8" ∷ [];
  grandpa_authorities =
      ("5CgranHpy1PuPQpzvREZdsDnceZ49KyCg8twUzCc7vyQgqYE", 1)
      ∷ ("5GgranquAWAHDd4CRZpkk7KPzMstv2gwxAfmRCJ2LpKmqiY9", 1)
      ∷ [];
}

genesis_ved : genesis one_account ved ≡ some ved_genesis
unfolding genesis pubkey_from_ss58 account_id_from_ss58 authority_from_ss58 testnet_genesis all
genesis_ved = refl

pub all_seeds : AllSeeds toy_keys texts
unfolding get_from_seed
all_seeds seed m = ("//" ++ seed, refl)

load_spec_lem_example :
    ((a : Alternative) × IsSpelled a "ved"
      × ((spec : ChainSpec toy_keys) × (load_spec toy_keys "ved" ≡ ok (some spec))
          × (spec.id ≡ id_of a)))
    ⊎ (((a : Alternative) → ¬ IsSpelled a "ved") × (load_spec toy_keys "ved" ≡ ok none))
load_spec_lem_example = load_spec_lem toy_keys "ved"
