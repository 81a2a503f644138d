-- ===== src/Tests/NodeExamples.antt =====
-- The theorems about service.rs and cli.rs, over substrate calls that always succeed.
use substrate_scaffold.Prelude.{
  ℕ, ◌≡◌, ◌≢◌, refl, String, Bool, true, false, Option, some, List, [], ◌∷◌, map,
}
use substrate_scaffold.Result.{Result, ok, err, Exec}
use substrate_scaffold.Service
use substrate_scaffold.Service.{
  essential_voter, import_queue_closure, essential_aura, new_full_start, Effect, Configuration,
  new_full, panic,
}
use substrate_scaffold.Service.Light.{
  LightExternals, transaction_pool_closure, light_import_queue_closure, new_light,
}
use substrate_scaffold.Service.Fetching.{new_light-eq-ok}
use substrate_scaffold.Service.Roles.{planned, kind, new_full-ne-panic, new_full-planned}
use substrate_scaffold.Cli.Exit.{send_failed}
use substrate_scaffold.Cli.Run.{
  RunError, Event, signal, service_ends, poll, idle, just_started, run_until_exit,
}
use substrate_scaffold.Cli.Shutdown.{run_until_exit-ok, run_until_exit-late}

abbrev pub NodeConfig : Type 0
NodeConfig = Configuration Bool

-- Substrate calls that succeed; a role is whether the node is an authority.
abbrev pub Setup : Type 0
Setup = Option (Unit {0} × Unit {0})

abbrev pub queue_with :
    Unit {0}
    → (Unit {0} → Option (Unit {0}) → Unit {0} → Exec Setup String (Unit {0}))
    → Exec Setup String (Unit {0})
queue_with b f s = f tt (some tt) tt s

pub queue_with_ran :
    (b : Unit {0}) (f : Unit {0} → Option (Unit {0}) → Unit {0} → Exec Setup String (Unit {0}))
    (s : Setup) (b' : Unit {0}) (s' : Setup)
    → queue_with b f s ≡ (ok b', s')
    → (c : Unit {0}) × (selected : Option (Unit {0})) × (pool : Unit {0}) × (q : Unit {0}) × (f c
          selected pool s
        ≡ (ok q, s'))
queue_with_ran b f s b' s' h = (tt, some tt, tt, b', h)

abbrev pub calls : Service.Externals
calls = record {
  Roles = Bool;
  is_authority = λ role. role;
  Error = String;
  select_chain_required = "select chain required";
  Builder = Unit {0};
  Service = Unit {0};
  Client = Unit {0};
  SelectChain = Unit {0};
  Pool = Unit {0};
  Keystore = Unit {0};
  Providers = Unit {0};
  providers = tt;
  GrandpaImport = Unit {0};
  LinkHalf = Unit {0};
  AuraImport = Unit {0};
  SlotDuration = Unit {0};
  Queue = Unit {0};
  builder_new_full = λ config. ok tt;
  with_select_chain = λ b. ok tt;
  with_transaction_pool = λ b. ok tt;
  with_import_queue = queue_with;
  with_import_queue_ran = queue_with_ran;
  block_import = λ c s. ok (tt, tt);
  aura_block_import = λ g c. tt;
  get_or_compute = λ c. ok tt;
  import_queue = λ d a g c i p. ok tt;
  with_network_protocol = λ b. ok tt;
  with_finality_proof_provider = λ b. ok tt;
  build = λ b. ok tt;
  client = λ s. tt;
  select_chain = λ s. some tt;
  keystore = λ s. tt;
  AuraTask = Unit {0};
  ObserverTask = Unit {0};
  VoterTask = Unit {0};
  start_aura = λ d c s g v i f k. ok tt;
  run_grandpa_observer = λ g l s. ok tt;
  run_grandpa_voter = λ g l s i. ok tt;
  setup_disabled_grandpa = λ s i. ok tt;
}

abbrev pub authority_config : NodeConfig
authority_config = record {
  roles = true;
  force_authoring = false;
  name = "alice";
  disable_grandpa = false;
  sentry_mode = false;
}

abbrev spawned : List (Effect calls)
spawned = essential_aura tt ∷ essential_voter tt ∷ []

authority_runs : new_full calls authority_config [] ≡ (ok tt, spawned)
unfolding new_full new_full_start import_queue_closure
authority_runs = refl

new_full-ne-panic_example : (new_full calls authority_config []).0 ≢ err panic
new_full-ne-panic_example = new_full-ne-panic calls authority_config []

new_full-planned_example : map (kind calls) spawned ≡ planned true false false
new_full-planned_example = new_full-planned calls authority_config authority_runs

abbrev failed_service : List (Event ℕ)
failed_service = service_ends (err 7) ∷ poll ∷ idle ∷ []

abbrev fine : Result (RunError ℕ) (Unit {0})
fine = ok tt

run_until_exit-ok_example : fine ≡ ok tt
unfolding run_until_exit
run_until_exit-ok_example = run_until_exit-ok failed_service fine refl

abbrev late_signal : List (Event ℕ)
late_signal = service_ends (ok tt) ∷ poll ∷ signal ∷ []

run_until_exit-late_example : (run_until_exit late_signal just_started).panicked ≡ some send_failed
run_until_exit-late_example = run_until_exit-late late_signal

abbrev pub Light : Type 0
Light = Unit {0}

-- The same for a light node.
pub light_pool_ran :
    (b : Light) (f : Light → Option Light → Result String Light) (b' : Light)
    → f tt (some tt) ≡ ok b'
    → (c : Light) × (pool : Light) × (f c (some tt) ≡ ok pool)
light_pool_ran b f b' h = (tt, b', h)

abbrev pub queue_of : Result String (Light × Light) → Result String Light
queue_of (ok made) = ok tt
queue_of (err e) = err e

light_queue_of :
    (r : Result String (Light × Light)) (b' : Light)
    → queue_of r ≡ ok b'
    → (made : Light × Light) × (r ≡ ok made)
light_queue_of (ok made) b' h = (made, refl)
light_queue_of (err e) b' h = cc

pub light_queue_ran :
    (b : Light) (f : Light → Light → Option Light → Result String (Light × Light)) (b' : Light)
    → queue_of (f tt tt (some tt)) ≡ ok b'
    → (c : Light) × (backend : Light) × (made : Light × Light) × (f c backend (some tt) ≡ ok made)
light_queue_ran b f b' h =
    let (made, e) = light_queue_of (f tt tt (some tt)) b' h in (tt, tt, made, e)

abbrev pub light_calls : LightExternals
light_calls = record {
  Roles = Bool;
  Error = String;
  error_of = λ message. message;
  Builder = Light;
  Service = Light;
  Client = Light;
  Fetcher = Light;
  Checker = Light;
  Backend = Light;
  Pool = Light;
  Import = Light;
  ProofBuilder = Light;
  SlotDuration = Light;
  Queue = Light;
  builder_new_light = λ config. ok tt;
  with_select_chain = λ b. ok tt;
  fetcher = λ b. some tt;
  with_transaction_pool = λ b f. f tt (some tt);
  with_transaction_pool_ran = light_pool_ran;
  light_pool = λ c f. tt;
  with_import_queue_and_fprb = λ b f. queue_of (f tt tt (some tt));
  with_import_queue_and_fprb_ran = light_queue_ran;
  checker = λ f. tt;
  light_block_import = λ c b k. ok tt;
  create_finality_proof_request_builder = λ i. tt;
  get_or_compute = λ c. ok tt;
  import_queue = λ d i j c. ok tt;
  with_network_protocol = λ b. ok tt;
  with_finality_proof_provider = λ b. ok tt;
  build = λ b. ok tt;
}

light_starts : new_light light_calls authority_config ≡ ok tt
unfolding new_light transaction_pool_closure light_import_queue_closure
light_starts = refl

abbrev done : Result String Light
done = ok tt

new_light-eq-ok_example :
    (chained : Light) × (pooled : Light) × (first : Light) × (second : Light) × (client : Light)
    × (backend : Light) × (grandpa : Light) × (done ≡ ok chained)
    × (some tt ≡ some first)
    × (light_calls.with_transaction_pool chained (transaction_pool_closure light_calls) ≡ ok pooled)
    × (some tt ≡ some second)
    × (done ≡ ok grandpa)
new_light-eq-ok_example = new_light-eq-ok light_calls authority_config light_starts
