-- ===== src/Cli/Command.antt =====
-- vasaplatsen/src/cli.rs: `run`, from the arguments to the command that they name. What `sc_cli`
-- provides is in `CliExternals`; what is done with the service is the state, as in service.rs.
use substrate_scaffold.Prelude.{◌≡◌, ◌⊎◌, String, Bool, Option, none, List, if◌then◌else◌}
use substrate_scaffold.Result.{Result, ok, err, Exec, pure, ◌>>=◌, lift}
use substrate_scaffold.ChainSpec.{ChainSpec}
use substrate_scaffold.Service.{Configuration, Failure, Effect, new_full_start, new_full}
use substrate_scaffold.Service.Light.{LightExternals, new_light}
use substrate_scaffold.Cli.{load_spec}
use substrate_scaffold.Cli.Run.{
  Phase, Event, RunError, running, stopping, returned, just_started, run_until_exit,
}

-- The parts of the program that `run` puts together; the roles are one type in the source.
pub record Parts : Type 1 where
  pub chains : substrate_scaffold.ChainSpec.Externals
  pub full : substrate_scaffold.Service.Externals
  pub light : LightExternals
  pub light_roles : full.Roles → light.Roles
  pub is_light : full.Roles → Bool

-- How the program names itself, as it is given to `parse_and_prepare`.
pub record VersionInfo : Type 0 where
  pub name : String
  pub commit : String
  pub version : String
  pub executable_name : String
  pub author : String
  pub description : String
  pub support_url : String

-- What `parse_and_prepare` makes of the arguments, with the settings of each command.
pub data ParseAndPrepare (Settings : Type 0) : Type 0 where
  run_node build_spec export_blocks import_blocks check_block purge_chain revert_chain
        custom_command :
      Settings → ParseAndPrepare Settings

-- `error::Error`, as far as the code makes one, or `sc_cli` does. `format!` makes a text of what
-- the asynchronous runtime fails with.
pub data CliError (p : Parts) (E : Type 0) : Type 0 where
  full_failed : Failure p.full.Error → CliError p E
  light_failed : p.light.Error → CliError p E
  full_ended : RunError p.full.Error → CliError p E
  light_ended : RunError p.light.Error → CliError p E
  input : String → CliError p E
  other : E → CliError p E

-- A node that runs has not returned yet.
pub data Outcome : Type 0 where
  finished still_running : Outcome

module _ (p : Parts) where
  abbrev pub LoadSpec : Type 0
  LoadSpec = String → Result String (Option (ChainSpec p.chains))

  abbrev pub Config : Type 0
  Config = Configuration p.full.Roles

  abbrev pub Command : Type 0 → Type 0
  Command E = Exec (List (Effect p.full)) (CliError p E) Outcome

-- The crate `sc_cli`. The law of `run_with` is what it documents: the closure is called with the
-- configuration that the settings give, or an error comes before.
pub record CliExternals (p : Parts) : Type 1 where
  pub Args : Type 0
  pub Settings : Type 0
  pub Error : Type 0
  pub parse_and_prepare : VersionInfo → String → Args → ParseAndPrepare Settings
  pub run_with : Settings → LoadSpec p → (Config p → Command p Error) → Command p Error
  pub run_with_ran :
      (settings : Settings) (load : LoadSpec p) (closure : Config p → Command p Error)
      (log : List (Effect p.full))
      → ((config : Config p) × (run_with settings load closure log ≡ closure config log))
        ⊎ ((e : Error) × (run_with settings load closure log ≡ (err (other e), log)))
  pub build : Settings → LoadSpec p → Result Error (Unit {0})
  pub purge : Settings → LoadSpec p → Result Error (Unit {0})
  pub export :
      Settings
      → (Config p → Result p.full.Error p.full.Builder)
      → LoadSpec p
      → Result Error (Unit {0})
  pub import :
      Settings
      → (Config p → Result p.full.Error p.full.Builder)
      → LoadSpec p
      → Result Error (Unit {0})
  pub check :
      Settings
      → (Config p → Result p.full.Error p.full.Builder)
      → LoadSpec p
      → Result Error (Unit {0})
  pub revert :
      Settings
      → (Config p → Result p.full.Error p.full.Builder)
      → LoadSpec p
      → Result Error (Unit {0})
  pub new_runtime : Result String (Unit {0})

module _ (p : Parts) (x : CliExternals p) where
  -- What happens while a node runs, a full one or a light one.
  pub record Events : Type 0 where
    pub full : List (Event p.full.Error)
    pub light : List (Event p.light.Error)

  end_of :
      {E : Type 0}
      → (RunError E → CliError p x.Error)
      → Phase E
      → Result (CliError p x.Error) Outcome
  end_of wrap running = ok still_running
  end_of wrap (stopping r) = ok still_running
  end_of wrap (returned (ok a)) = ok finished
  end_of wrap (returned (err e)) = err (wrap e)

  wrap_err : {E A : Type 0} → (E → CliError p x.Error) → Result E A → Result (CliError p x.Error) A
  wrap_err wrap (ok a) = ok a
  wrap_err wrap (err e) = err (wrap e)

  -- `new_full(config)?`; the errors of both, and a panic, end the command.
  full_service : Config p → Exec (List (Effect p.full)) (CliError p x.Error) p.full.Service
  unfolding wrap_err
  full_service config log =
      let (r, spawned) = new_full p.full config log in (wrap_err full_failed r, spawned)

  abbrev pub light_config : Config p → Configuration p.light.Roles
  light_config config = record {
    roles = p.light_roles config.roles;
    force_authoring = config.force_authoring;
    name = config.name;
    disable_grandpa = config.disable_grandpa;
    sentry_mode = config.sentry_mode;
  }

  -- `run_until_exit(runtime, service::new_light(config)?, exit)`
  unfoldable pub run_light : Events → Config p → Command p x.Error
  unfolding end_of wrap_err
  run_light events config = do
    service ← lift (wrap_err light_failed (new_light p.light (light_config config)))
    lift (end_of light_ended (run_until_exit events.light just_started).phase)

  -- `run_until_exit(runtime, service::new_full(config)?, exit)`
  unfoldable pub run_full : Events → Config p → Command p x.Error
  unfolding end_of full_service
  run_full events config = do
    service ← full_service config
    lift (end_of full_ended (run_until_exit events.full just_started).phase)

  -- The closure that `cmd.run` is given.
  unfoldable pub node_closure : Events → Config p → Command p x.Error
  unfolding wrap_err run_light run_full
  node_closure events config = do
    runtime ← lift (wrap_err input x.new_runtime)
    if p.is_light config.roles then run_light events config else run_full events config

  -- The closure of the commands that need a builder only.
  abbrev pub builder_closure : Config p → Result p.full.Error p.full.Builder
  builder_closure config = (new_full_start p.full config none).0

  unfoldable pub done : Result x.Error (Unit {0}) → Command p x.Error
  done (ok a) = pure finished
  done (err e) = lift (err (other e))

  -- The `match`.
  unfoldable pub prepared : Events → ParseAndPrepare x.Settings → Command p x.Error
  unfolding node_closure done
  prepared events (run_node cmd) = x.run_with cmd (load_spec p.chains) (node_closure events)
  prepared events (build_spec cmd) = done (x.build cmd (load_spec p.chains))
  prepared events (export_blocks cmd) = done (x.export cmd builder_closure (load_spec p.chains))
  prepared events (import_blocks cmd) = done (x.import cmd builder_closure (load_spec p.chains))
  prepared events (check_block cmd) = done (x.check cmd builder_closure (load_spec p.chains))
  prepared events (purge_chain cmd) = done (x.purge cmd (load_spec p.chains))
  prepared events (revert_chain cmd) = done (x.revert cmd builder_closure (load_spec p.chains))
  prepared events (custom_command cmd) = pure finished

  unfoldable pub run : Events → x.Args → VersionInfo → Command p x.Error
  unfolding prepared
  run events args version = prepared events (x.parse_and_prepare version "substrate-node" args)
