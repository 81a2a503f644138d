-- ===== src/Tests/CommandExamples.antt =====
-- The theorems about `run` of cli.rs, at arguments that run a node with the role of an authority.
use substrate_scaffold.Prelude.{◌∷◌, ◌≡◌, ◌⊎◌, inl, refl, String, Bool, true, false, List, []}
use substrate_scaffold.Result.{ok, err}
use substrate_scaffold.Service.{import_queue_closure, new_full_start, Effect, new_full}
use substrate_scaffold.Service.Roles.{authors}
use substrate_scaffold.Cli.Command.{
  Parts, Config, Command, LoadSpec, CliExternals, other, ParseAndPrepare, run_node, Events,
  node_closure, run_full, prepared, run,
}
use substrate_scaffold.Cli.Dispatch.{run-authors}
use substrate_scaffold.Cli.Run.{poll, signal, service_ends}
use substrate_scaffold.Cli.Finish.{Stopping}
use substrate_scaffold.Main.{Built, version_of}
use substrate_scaffold.Tests.KeyExamples.{toy_keys}
use substrate_scaffold.Tests.NodeExamples.{calls, light_calls, authority_config}

abbrev parts : Parts
parts = record {
  chains = toy_keys;
  full = calls;
  light = light_calls;
  light_roles = λ role. role;
  is_light = λ role. false;
}

abbrev run_with :
    Bool → LoadSpec parts → (Config parts → Command parts String) → Command parts String
run_with settings load closure = closure authority_config

run_with_ran :
    (settings : Bool) (load : LoadSpec parts) (closure : Config parts → Command parts String)
    (log : List (Effect calls))
    → ((config : Config parts) × (run_with settings load closure log ≡ closure config log))
      ⊎ ((e : String) × (run_with settings load closure log ≡ (err (other e), log)))
run_with_ran settings load closure log = inl (authority_config, refl)

-- The arguments are the settings of `Run`.
abbrev cli : CliExternals parts
cli = record {
  Args = Bool;
  Settings = Bool;
  Error = String;
  parse_and_prepare = λ version name settings. run_node settings;
  run_with = run_with;
  run_with_ran = run_with_ran;
  build = λ settings load. ok tt;
  purge = λ settings load. ok tt;
  export = λ settings closure load. ok tt;
  import = λ settings closure load. ok tt;
  check = λ settings closure load. ok tt;
  revert = λ settings closure load. ok tt;
  new_runtime = ok tt;
}

abbrev built : Built
built = record { vergen_sha_short = "6e0a487"; cargo_pkg_version = "2.0.0" }

abbrev nothing_happens : Events parts cli
nothing_happens = record { full = []; light = [] }

runs_aura : authors calls (run parts cli nothing_happens true (version_of built) []).1 ≡ true
unfolding run prepared node_closure run_full new_full new_full_start import_queue_closure
runs_aura = refl

run-authors_example :
    (cmd : Bool) × (config : Config parts) × (◌≡◌ {A = ParseAndPrepare Bool}
      (run_node true)
      (run_node cmd))
    × (false ≡ false)
    × (config.roles ≡ true)
    × (config.sentry_mode ≡ false)
run-authors_example = run-authors parts cli nothing_happens true (version_of built) runs_aura

-- A full node that ends by a signal, after a turn of its thread; and a light one, by its service.
abbrev stops : Stopping parts cli
stops = record {
  full_before = poll ∷ [];
  full_stop = signal;
  full_wakes = tt;
  light_before = [];
  light_stop = service_ends (ok tt);
  light_wakes = tt;
}
