-- ===== src/Cli/Finish.antt =====
-- vasaplatsen/src/cli.rs with service.rs: how the command that runs a node ends, once something has
-- told the node to stop.
use substrate_scaffold.Prelude.{
  ◌≡◌, sym, subst, true, false, Bool-cases, ◌⊎◌, inl, inr, List, [], ◌∷◌, ◌++◌, arith,
}
use substrate_scaffold.Result.{Result, Result-cases, ok, err}
use substrate_scaffold.Service.{Failure, Effect, new_full}
use substrate_scaffold.Service.Light.{new_light}
use substrate_scaffold.Cli.{load_spec}
use substrate_scaffold.Cli.Run.{Event, poll, idle}
use substrate_scaffold.Cli.Shutdown.{IsWaking, run_until_exit-returns}
use substrate_scaffold.Cli.Command.{
  VersionInfo, Parts, Config, CliExternals, CliError, Outcome, finished, full_failed, light_failed,
  run_node, Events, light_config, run_light, run_full, node_closure, prepared, run,
}

module _ (p : Parts) (x : CliExternals p) where
  -- A node is told to stop, by a signal or by the end of its service, then its thread runs, and its
  -- tasks are done, which the code waits for without a limit; before that anything may happen.
  pub record Stopping : Type 0 where
    pub full_before : List (Event p.full.Error)
    pub full_stop : Event p.full.Error
    pub full_wakes : IsWaking full_stop
    pub light_before : List (Event p.light.Error)
    pub light_stop : Event p.light.Error
    pub light_wakes : IsWaking light_stop

  abbrev pub events_of : Stopping → Events p x
  events_of h = record {
    full = h.full_before ++ h.full_stop ∷ poll ∷ idle ∷ [];
    light = h.light_before ++ h.light_stop ∷ poll ∷ idle ∷ [];
  }

  abbrev pub Ended : Config p → List (Effect p.full) → Result (CliError p x.Error) Outcome → Type 0
  Ended config log r =
      (r ≡ ok finished)
      ⊎ ((e : Failure p.full.Error) × (p.is_light config.roles ≡ false)
          × ((new_full p.full config log).0 ≡ err e)
          × (r ≡ err (full_failed e)))
      ⊎ ((e : p.light.Error) × (p.is_light config.roles ≡ true)
          × (new_light p.light (light_config p x config) ≡ err e)
          × (r ≡ err (light_failed e)))

  run_full-Ended :
      (h : Stopping) (config : Config p) (log : List (Effect p.full))
      → p.is_light config.roles ≡ false
      → Ended config log (run_full p x (events_of h) config log).0
  unfolding run_full
  run_full-Ended h config log role =
      let stops = run_until_exit-returns h.full_before h.full_stop h.full_wakes in
      elim (Result-cases (new_full p.full config log).0) [
        | inl (service, e) ↦ inl (ground (arith, e, stops))
        | inr (e, k) ↦ inr (inl (e, role, k, ground (arith, k)))
      ]

  run_light-Ended :
      (h : Stopping) (config : Config p) (log : List (Effect p.full))
      → p.is_light config.roles ≡ true
      → Ended config log (run_light p x (events_of h) config log).0
  unfolding run_light
  run_light-Ended h config log role =
      let stops = run_until_exit-returns h.light_before h.light_stop h.light_wakes in
      elim (Result-cases (new_light p.light (light_config p x config))) [
        | inl (service, e) ↦ inl (ground (arith, e, stops))
        | inr (e, k) ↦ inr (inr (e, role, k, ground (arith, k)))
      ]

  node_closure-light :
      (h : Stopping) (config : Config p) (log : List (Effect p.full))
      → x.new_runtime ≡ ok tt
      → p.is_light config.roles ≡ true
      → run_light p x (events_of h) config log ≡ node_closure p x (events_of h) config log
  unfolding node_closure
  node_closure-light h config log made role = ground (arith, made, role)

  node_closure-full :
      (h : Stopping) (config : Config p) (log : List (Effect p.full))
      → x.new_runtime ≡ ok tt
      → p.is_light config.roles ≡ false
      → run_full p x (events_of h) config log ≡ node_closure p x (events_of h) config log
  unfolding node_closure
  node_closure-full h config log made role = ground (arith, made, role)

  closure-Ended :
      (h : Stopping) (config : Config p) (log : List (Effect p.full))
      → x.new_runtime ≡ ok tt
      → Ended config log (node_closure p x (events_of h) config log).0
  closure-Ended h config log made = elim (Bool-cases (p.is_light config.roles)) [
    | inl role ↦
        subst (λ r. Ended config log r.0) (node_closure-light h config log made role)
          (run_light-Ended h config log role)
    | inr role ↦
        subst (λ r. Ended config log r.0) (node_closure-full h config log made role)
          (run_full-Ended h config log role)
  ]

  -- How a node ends that is told to stop, if its thread then runs and the asynchronous runtime comes
  -- to be idle. Where the arguments run a node, `sc_cli` calls the closure with a configuration and
  -- the runtime is made: the program finishes without an error, whatever happened to the node and
  -- however its service ended, unless the start of the service that its role asks for, a full or a
  -- light one, failed, and then it ends in that error.
  pub run-Ended :
      (h : Stopping) (args : x.Args) (version : VersionInfo) (cmd : x.Settings) (config : Config p)
      (log : List (Effect p.full))
      → x.parse_and_prepare version "substrate-node" args ≡ run_node cmd
      → x.run_with cmd (load_spec p.chains) (node_closure p x (events_of h)) log
        ≡ node_closure p x (events_of h) config log
      → x.new_runtime ≡ ok tt
      → Ended config log (run p x (events_of h) args version log).0
  unfolding run prepared
  run-Ended h args version cmd config log e ran made =
      rw e (subst (λ r. Ended config log r.0) (sym ran) (closure-Ended h config log made))
