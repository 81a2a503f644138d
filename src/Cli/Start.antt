-- ===== src/Cli/Start.antt =====
-- cli.rs with chain_spec.rs: from the name of a chain on the command line to its genesis.
use substrate_scaffold.Prelude.{◌≡◌, ◌≢◌, ◌∙◌, refl, String, some}
use substrate_scaffold.Result.{ok}
use substrate_scaffold.ChainSpec.{
  Externals, ChainSpec, Alternative, development, local_testnet, ved, GenesisConfig, from, load,
  spec_of, genesis,
}
use substrate_scaffold.ChainSpec.Names.{IsSpelled, from-eq_iff}
use substrate_scaffold.ChainSpec.Seeds.{AllSeeds, genesis-eq-some}
use substrate_scaffold.ChainSpec.Validators.{IsStarted, genesis-IsStarted}
use substrate_scaffold.Cli.{load_spec}

module _ (x : Externals) where
  load_spec-genesis :
      (name : String) (a : Alternative)
      → from name ≡ some a
      → (spec : ChainSpec x) × (load_spec x name ≡ ok (some spec))
        × (spec.constructor tt ≡ genesis x a)
  unfolding load_spec load spec_of
  load_spec-genesis name development e = (spec_of x development, rw e, refl)
  load_spec-genesis name local_testnet e = (spec_of x local_testnet, rw e, refl)
  load_spec-genesis name ved e = (spec_of x ved, rw e, refl)

  -- The names of the development and the local chain start a chain. If every seed that the code
  -- names gives keys of each kind: such a name is loaded, the genesis of its specification is made
  -- without a panic, the initial authorities are those of Alice, or of Alice and Bob for the local
  -- chain, in order, their accounts are endowed with 2 ^ 60 units each, and the sudo key is Alice's
  -- account.
  pub load_spec-IsStarted :
      (name : String) (a : Alternative)
      → a ≢ ved
      → IsSpelled a name
      → AllSeeds x x.Aura
      → AllSeeds x x.Grandpa
      → AllSeeds x x.Sr25519
      → (spec : ChainSpec x) × (g : GenesisConfig x) × (load_spec x name ≡ ok (some spec))
        × (spec.constructor tt ≡ some g)
        × IsStarted x a g
  load_spec-IsStarted name a ne spelled aura grandpa sr =
      let (spec, loaded, built) = load_spec-genesis name a ((from-eq_iff name a).1 spelled) in
      let (g, made) = genesis-eq-some x a ne aura grandpa sr in
      (spec, g, loaded, built ∙ made, genesis-IsStarted x a ne made)
