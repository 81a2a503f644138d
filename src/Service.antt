-- ===== src/Service.antt =====
-- vasaplatsen/src/service.rs: the start of a full node. What substrate provides is in `Externals`;
-- what is done with the service, the tasks that are spawned above all, is the state, in order.
pub mod Roles
pub mod Light
pub mod Fetching
use substrate_scaffold.Prelude.{
  ℕ, ◌≡◌, String, Bool, true, false, not, ◌&&◌, Option, none, some, List, [], ◌∷◌, ◌++◌,
  if◌then◌else◌,
}
use substrate_scaffold.Result.{Result, ok, err, Exec, pure, bind, ◌>>=◌, ◌>>◌, lift, modify}

-- The fields of `Configuration` that the code reads.
pub record Configuration (Roles : Type 0) : Type 0 where
  pub roles : Roles
  pub force_authoring : Bool
  pub name : String
  pub disable_grandpa : Bool
  pub sentry_mode : Bool

-- `grandpa::Config`; the duration is in milliseconds.
pub record GrandpaConfig (Keystore : Type 0) : Type 0 where
  pub gossip_duration : ℕ
  pub justification_period : ℕ
  pub name : String
  pub observer_enabled : Bool
  pub keystore : Option Keystore
  pub is_authority : Bool

-- The types and calls of substrate that `new_full` uses. The law of `with_import_queue` is what
-- the service builder documents: it succeeds only by calling the closure, which it hands its
-- client, its chain selection and its pool, and only if the closure succeeds.
pub record Externals : Type 1 where
  pub Roles : Type 0
  pub is_authority : Roles → Bool
  pub Error : Type 0
  pub select_chain_required : Error
  pub Builder : Type 0
  pub Service : Type 0
  pub Client : Type 0
  pub SelectChain : Type 0
  pub Pool : Type 0
  pub Keystore : Type 0
  pub Providers : Type 0
  pub providers : Providers
  pub GrandpaImport : Type 0
  pub LinkHalf : Type 0
  pub AuraImport : Type 0
  pub SlotDuration : Type 0
  pub Queue : Type 0
  pub builder_new_full : Configuration Roles → Result Error Builder
  pub with_select_chain : Builder → Result Error Builder
  pub with_transaction_pool : Builder → Result Error Builder
  pub with_import_queue :
      Builder
      → (Client → Option SelectChain → Pool → Exec (Option (GrandpaImport × LinkHalf)) Error Queue)
      → Exec (Option (GrandpaImport × LinkHalf)) Error Builder
  pub with_import_queue_ran :
      (b : Builder)
      (f : Client
        → Option SelectChain
        → Pool
        → Exec (Option (GrandpaImport × LinkHalf)) Error Queue)
      (s : Option (GrandpaImport × LinkHalf)) (b' : Builder)
      (s' : Option (GrandpaImport × LinkHalf))
      → with_import_queue b f s ≡ (ok b', s')
      → (c : Client) × (chain : Option SelectChain) × (pool : Pool) × (q : Queue) × (f c chain pool
            s
          ≡ (ok q, s'))
  pub block_import : Client → SelectChain → Result Error (GrandpaImport × LinkHalf)
  pub aura_block_import : GrandpaImport → Client → AuraImport
  pub get_or_compute : Client → Result Error SlotDuration
  pub import_queue :
      SlotDuration → AuraImport → GrandpaImport → Client → Providers → Pool → Result Error Queue
  pub with_network_protocol : Builder → Result Error Builder
  pub with_finality_proof_provider : Builder → Result Error Builder
  pub build : Builder → Result Error Service
  pub client : Service → Client
  pub select_chain : Service → Option SelectChain
  pub keystore : Service → Keystore
  pub AuraTask : Type 0
  pub ObserverTask : Type 0
  pub VoterTask : Type 0
  pub start_aura :
      SlotDuration
      → Client
      → SelectChain
      → GrandpaImport
      → Service
      → Providers
      → Bool
      → Keystore
      → Result Error AuraTask
  pub run_grandpa_observer : GrandpaConfig Keystore → LinkHalf → Service → Result Error ObserverTask
  pub run_grandpa_voter :
      GrandpaConfig Keystore → LinkHalf → Service → Providers → Result Error VoterTask
  pub setup_disabled_grandpa : Service → Providers → Result Error (Unit {0})

-- How `new_full` ends without a service: an error that it returns, or the panic of `expect`.
pub data Failure (E : Type 0) : Type 0 where
  service_error : E → Failure E
  panic : Failure E

module _ (x : Externals) where
  abbrev pub ImportSetup : Type 0
  ImportSetup = Option (x.GrandpaImport × x.LinkHalf)

  ok_or : {A : Type 0} → Option A → Result x.Error A
  ok_or none = err x.select_chain_required
  ok_or (some a) = ok a

  -- The closure given to `with_import_queue`. It stores the import and the link as it ends.
  unfoldable pub import_queue_closure :
      x.Client → Option x.SelectChain → x.Pool → Exec ImportSetup x.Error x.Queue
  unfolding ok_or
  import_queue_closure client select_chain pool = do
    chain ← lift (ok_or select_chain)
    (grandpa, link) ← lift (x.block_import client chain)
    slot ← lift (x.get_or_compute client)
    queue ←
        lift
          (x.import_queue slot (x.aura_block_import grandpa client) grandpa client x.providers pool)
    modify (λ _. some (grandpa, link))
    pure queue

  -- The macro `new_full_start!`: the builder, with `import_setup` as the state.
  unfoldable pub new_full_start : Configuration x.Roles → Exec ImportSetup x.Error x.Builder
  new_full_start config = do
    fresh ← lift (x.builder_new_full config)
    chained ← lift (x.with_select_chain fresh)
    pooled ← lift (x.with_transaction_pool chained)
    x.with_import_queue pooled import_queue_closure

  -- What is done with the service once it is built: a task is spawned, an essential one taking the
  -- service down as it ends, or the node is set up to do without Grandpa, which spawns nothing here.
  pub data Effect : Type 0 where
    essential_aura : x.AuraTask → Effect
    grandpa_observer : x.ObserverTask → Effect
    essential_voter : x.VoterTask → Effect
    disabled_grandpa_set_up : Effect

  abbrev pub Start : Type 0 → Type 0
  Start = Exec (List Effect) (Failure x.Error)

  -- `r?`
  attempt : {A : Type 0} → Result x.Error A → Start A
  attempt (ok a) = pure a
  attempt (err e) = lift (err (service_error e))

  perform : Effect → Start (Unit {0})
  perform effect = modify (λ log. log ++ effect ∷ [])

  -- `import_setup.take().expect(…)`
  expect : ImportSetup → Start (x.GrandpaImport × x.LinkHalf)
  expect none = lift (err panic)
  expect (some setup) = pure setup

  -- `new_full_start!(config)`, whose errors `new_full` returns.
  started : Configuration x.Roles → Start (x.Builder × ImportSetup)
  unfolding attempt
  started config =
      let (r, setup) = new_full_start config none in do builder ← attempt r; pure (builder, setup)

  unfoldable pub participates : Configuration x.Roles → Bool
  participates config = x.is_authority config.roles && not config.sentry_mode

  -- The body of `if participates_in_consensus`.
  author : Configuration x.Roles → x.Service → x.GrandpaImport → Start (Unit {0})
  unfolding attempt ok_or perform
  author config service block_import = do
    select_chain ← attempt (ok_or (x.select_chain service))
    slot ← attempt (x.get_or_compute (x.client service))
    aura ← attempt (
        x.start_aura slot (x.client service) select_chain block_import service x.providers
          config.force_authoring (x.keystore service))
    perform (essential_aura aura)

  unfoldable pub grandpa_config : Configuration x.Roles → x.Service → GrandpaConfig x.Keystore
  unfolding participates
  grandpa_config config service = record {
    gossip_duration = 333;
    justification_period = 512;
    name = config.name;
    observer_enabled = true;
    keystore = if participates config then some (x.keystore service) else none;
    is_authority = x.is_authority config.roles;
  }

  -- `match (is_authority, disable_grandpa)`
  finalize : Bool → Bool → GrandpaConfig x.Keystore → x.LinkHalf → x.Service → Start (Unit {0})
  unfolding attempt perform
  finalize false false config link service = do
    observer ← attempt (x.run_grandpa_observer config link service)
    perform (grandpa_observer observer)
  finalize true false config link service = do
    voter ← attempt (x.run_grandpa_voter config link service x.providers)
    perform (essential_voter voter)
  finalize authority true config link service = do
    attempt (x.setup_disabled_grandpa service x.providers)
    perform disabled_grandpa_set_up

  unfoldable pub new_full : Configuration x.Roles → Start x.Service
  unfolding started expect author finalize attempt participates grandpa_config
  new_full config = do
    (builder, setup) ← started config
    (block_import, link) ← expect setup
    protocol ← attempt (x.with_network_protocol builder)
    provider ← attempt (x.with_finality_proof_provider protocol)
    service ← attempt (x.build provider)
    if participates config then author config service block_import else pure tt
    finalize (x.is_authority config.roles) config.disable_grandpa (grandpa_config config service)
        link service
    pure service
