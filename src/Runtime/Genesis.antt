-- ===== src/Runtime/Genesis.antt =====
-- lib.rs with chain_spec.rs and mod.rs: the chain that a node runs from a genesis.
use substrate_scaffold.Prelude.{ℕ, ◌≢◌, ◌≡◌, sym, ap, ◌∙◌, String, some, List}
use substrate_scaffold.Anchors.{Pallet}
use substrate_scaffold.Anchors.Permanence.{genesis}
use substrate_scaffold.Result.{ok}
use substrate_scaffold.ChainSpec.{
  Externals, ChainSpec, GenesisConfig, Alternative, ved, all, get_from_seed,
  get_account_id_from_seed,
}
use substrate_scaffold.ChainSpec.Genesis.{keys}
use substrate_scaffold.ChainSpec.Names.{IsSpelled}
use substrate_scaffold.ChainSpec.Seeds.{AllSeeds}
use substrate_scaffold.ChainSpec.Validators.{validators, EachEndowed}
use substrate_scaffold.Cli.{load_spec}
use substrate_scaffold.Cli.Start.{load_spec-IsStarted}
use substrate_scaffold.Runtime.Calls.{Chain, Modules}

-- `build_storage`, and the pallets' reads of what it puts in. A pallet's storage is made from its
-- entry in the genesis, and is empty where it has none, as `Anchors`, which `construct_runtime!`
-- gives no `Config`. The block number is 1 there.
pub record Built (k : Externals) (p : Pallet) (m : Modules p) : Type 1 where
  pub build_storage : GenesisConfig k → Chain p m.Rest
  pub built_anchors : (g : GenesisConfig k) → (build_storage g).pallet ≡ genesis p 1
  pub aura : m.Rest → List k.Aura.Key
  pub built_aura : (g : GenesisConfig k) → aura (build_storage g).rest ≡ g.aura_authorities
  pub grandpa : m.Rest → List (k.Grandpa.Key × ℕ)
  pub built_grandpa : (g : GenesisConfig k) → grandpa (build_storage g).rest ≡ g.grandpa_authorities

module _ {k : Externals} {p : Pallet} {m : Modules p} (b : Built k p m) where
  -- `Aura::authorities()` and `Grandpa::grandpa_authorities()`
  unfoldable pub authorities : Chain p m.Rest → List k.Aura.Key
  authorities s = b.aura s.rest

  unfoldable pub grandpa_authorities : Chain p m.Rest → List (k.Grandpa.Key × ℕ)
  grandpa_authorities s = b.grandpa s.rest

  -- From the name to the running chain. If every seed that the code names gives keys of each kind,
  -- the name of the development or the local chain is loaded, and the genesis of its specification is
  -- made without a panic; in the storage that is built from it, the runtime's interface reports as
  -- authorities, of Aura and of Grandpa, the keys of Alice, or of Alice and Bob for the local chain,
  -- in order; their accounts are endowed with 2 ^ 60 units each, and Alice's account is the sudo key
  -- in the genesis.
  pub load_spec-authorities :
      (name : String) (a : Alternative)
      → a ≢ ved
      → IsSpelled a name
      → AllSeeds k k.Aura
      → AllSeeds k k.Grandpa
      → AllSeeds k k.Sr25519
      → (spec : ChainSpec k) × (g : GenesisConfig k) × (load_spec k name ≡ ok (some spec))
        × (spec.constructor tt ≡ some g)
        × (all k (get_from_seed k.Aura) (validators a) ≡ some (authorities (b.build_storage g)))
        × (all k (get_from_seed k.Grandpa) (validators a)
            ≡ some (keys (grandpa_authorities (b.build_storage g))))
        × EachEndowed k g (validators a)
        × (get_account_id_from_seed k "Alice" ≡ some g.sudo_key)
  unfolding authorities grandpa_authorities
  load_spec-authorities name a ne spelled aura_seeds grandpa_seeds sr =
      let (spec, g, loaded, built, (aura, grandpa, endowed, root)) =
        load_spec-IsStarted k name a ne spelled aura_seeds grandpa_seeds sr in
      (
        spec,
        g,
        loaded,
        built,
        aura ∙ ap some (sym (b.built_aura g)),
        grandpa ∙ ap (λ l. some (keys l)) (sym (b.built_grandpa g)),
        endowed,
        root,
      )
