-- ===== src/Cli/Names.antt =====
-- cli.rs: what loading a name gives.
use substrate_scaffold.Prelude.{◌≡◌, ◌⊎◌, inl, inr, refl, String, none, some, Option-cases}
use substrate_scaffold.Result.{ok}
use substrate_scaffold.ChainSpec.{
  Externals, ChainSpec, Alternative, development, local_testnet, ved, from, load, spec_of, spec_of,
}
use substrate_scaffold.ChainSpec.Names.{IsSpelled, from-eq_iff}
use substrate_scaffold.Cli.{load_spec}

-- The identifier in a chain's specification.
abbrev pub id_of : Alternative → String
id_of development = "dev"
id_of local_testnet = "local_testnet"
id_of ved = "vasaplatsen_ved_testnet"

module _ (x : Externals) where
  -- Loading a name gives the specification with that alternative's identifier.
  abbrev Loads : String → Alternative → Type 0
  Loads name a = (spec : ChainSpec x) × (load_spec x name ≡ ok (some spec)) × (spec.id ≡ id_of a)

  load_spelled : (name : String) (a : Alternative) → from name ≡ some a → Loads name a
  unfolding load_spec load
  load_spelled name development e = (spec_of x development, rw e, refl)
  load_spelled name local_testnet e = (spec_of x local_testnet, rw e, refl)
  load_spelled name ved e = (spec_of x ved, rw e, refl)

  -- Loading never fails: a name that spells an alternative gives the specification with that
  -- alternative's identifier, and any other name gives none.
  pub load_spec_lem :
      (name : String)
      → ((a : Alternative) × IsSpelled a name × Loads name a)
        ⊎ (((a : Alternative) → ¬ IsSpelled a name) × (load_spec x name ≡ ok none))
  unfolding load_spec
  load_spec_lem name = elim (Option-cases (from name)) [
    | inl e ↦ inr (λ a spelled. cc (e, (from-eq_iff name a).1 spelled), rw e)
    | inr (a, e) ↦ inl (a, (from-eq_iff name a).0 e, load_spelled name a e)
  ]
