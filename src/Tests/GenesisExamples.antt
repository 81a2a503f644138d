-- ===== src/Tests/GenesisExamples.antt =====
-- The theorems about a chain from its genesis on, at a toy node.
use substrate_scaffold.Prelude.{◌≡◌, inl, refl, some}
use substrate_scaffold.Result.{ok}
use substrate_scaffold.Anchors.{create_anchor_call}
use substrate_scaffold.Anchors.Permanence.{genesis}
use substrate_scaffold.ChainSpec.{
  ChainSpec, GenesisConfig, local_testnet, all, get_from_seed, get_account_id_from_seed,
}
use substrate_scaffold.ChainSpec.Genesis.{keys}
use substrate_scaffold.ChainSpec.Validators.{validators, EachEndowed}
use substrate_scaffold.Cli.{load_spec}
use substrate_scaffold.Runtime.Calls.{anchors_call}
use substrate_scaffold.Runtime.Api.{apply_extrinsic}
use substrate_scaffold.Runtime.Blocks.{NodeReach, start, after, included}
use substrate_scaffold.Runtime.Genesis.{
  Built, authorities, grandpa_authorities, load_spec-authorities,
}
use substrate_scaffold.Tests.Toy.{chain}
use substrate_scaffold.Tests.ToyNode.{Toys, toys, Extrinsic, toy_executive}
use substrate_scaffold.Tests.Scene.{ub, admins, root}
use substrate_scaffold.Tests.KeyExamples.{toy_keys, dev_genesis, all_seeds}

abbrev build_toys : GenesisConfig toy_keys → Toys
build_toys g = record {
  pallet = genesis chain 1;
  rest = record { time = 0; aura = g.aura_authorities; grandpa = g.grandpa_authorities };
}

abbrev built : Built toy_keys chain toys
built = record {
  build_storage = build_toys;
  built_anchors = λ g. refl;
  aura = λ rest. rest.aura;
  built_aura = λ g. refl;
  grandpa = λ rest. rest.grandpa;
  built_grandpa = λ g. refl;
}

abbrev posting : Extrinsic
posting = (ub, anchors_call (create_anchor_call admins root))

abbrev posted : Toys
posted = (apply_extrinsic toy_executive posting (build_toys dev_genesis)).1

abbrev posting_run : NodeReach toy_executive (build_toys dev_genesis) posted
posting_run = after start (included posting (build_toys dev_genesis))

load_spec-authorities_example :
    (spec : ChainSpec toy_keys) × (g : GenesisConfig toy_keys) × (load_spec toy_keys ""
      ≡ ok (some spec))
    × (spec.constructor tt ≡ some g)
    × (all toy_keys (get_from_seed toy_keys.Aura) (validators local_testnet)
        ≡ some (authorities built (build_toys g)))
    × (all toy_keys (get_from_seed toy_keys.Grandpa) (validators local_testnet)
        ≡ some (keys (grandpa_authorities built (build_toys g))))
    × EachEndowed toy_keys g (validators local_testnet)
    × (get_account_id_from_seed toy_keys "Alice" ≡ some g.sudo_key)
load_spec-authorities_example =
    load_spec-authorities built "" local_testnet (λ e. cc e) (inl refl) all_seeds all_seeds
      all_seeds
