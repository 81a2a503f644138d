-- ===== src/Cli/Dispatch.antt =====
-- vasaplatsen/src/cli.rs with service.rs: what `run` starts, by the command and the roles.
use substrate_scaffold.Prelude.{
  ◌≡◌, ◌≢◌, refl, sym, ap, ◌∙◌, true, false, ◌⊎◌, inl, inr, List, [], arith,
}
use substrate_scaffold.Result.{Result, err}
use substrate_scaffold.Service.{panic, Effect, new_full}
use substrate_scaffold.Service.Roles.{authors, new_full-authors, new_full-ne-panic}
use substrate_scaffold.Cli.{load_spec}
use substrate_scaffold.Cli.Command.{
  custom_command, revert_chain, purge_chain, check_block, import_blocks, export_blocks, build_spec,
  prepared, done, run_light, run_full, VersionInfo, Parts, Config, CliExternals, ParseAndPrepare,
  Events, full_failed, run_node, node_closure, run,
}

module _ (p : Parts) (x : CliExternals p) (events : Events p x) where
  -- The arguments run a full node, and what is left of the log is what `new_full` makes of it.
  abbrev pub StartsFull :
      ParseAndPrepare x.Settings → List (Effect p.full) → List (Effect p.full) → Type 0
  StartsFull prepared log after =
      (cmd : x.Settings) × (config : Config p) × (prepared ≡ run_node cmd)
      × (p.is_light config.roles ≡ false)
      × (after ≡ (new_full p.full config log).1)

  run_light-log :
      (config : Config p) (log : List (Effect p.full)) → (run_light p x events config log).1 ≡ log
  unfolding run_light
  run_light-log config log = ground arith

  run_full-log :
      (config : Config p) (log : List (Effect p.full))
      → (run_full p x events config log).1 ≡ (new_full p.full config log).1
  unfolding run_full
  run_full-log config log = ground arith

  node_closure-log :
      (config : Config p) (log : List (Effect p.full))
      → ((node_closure p x events config log).1 ≡ log)
        ⊎ ((p.is_light config.roles ≡ false)
            × ((node_closure p x events config log).1 ≡ (new_full p.full config log).1))
  unfolding node_closure
  node_closure-log config log = ground (arith, run_light-log config log, run_full-log config log)

  run_full-ne-panic :
      (config : Config p) (log : List (Effect p.full))
      → (run_full p x events config log).0 ≢ err (full_failed panic)
  unfolding run_full
  run_full-ne-panic config log = ground (arith, new_full-ne-panic p.full config log)

  done-log : (r : Result x.Error (Unit {0})) (log : List (Effect p.full)) → (done p x r log).1 ≡ log
  unfolding done
  done-log r log = ground arith

  done-ne-panic :
      (r : Result x.Error (Unit {0})) (log : List (Effect p.full))
      → (done p x r log).0 ≢ err (full_failed panic)
  unfolding done
  done-ne-panic r log = ground arith

  node_closure-ne-panic :
      (config : Config p) (log : List (Effect p.full))
      → (node_closure p x events config log).0 ≢ err (full_failed panic)
  unfolding node_closure run_light
  node_closure-ne-panic config log = ground (arith, run_full-ne-panic config log)

  prepared-log :
      (a : ParseAndPrepare x.Settings) (log : List (Effect p.full))
      → ((prepared p x events a log).1 ≡ log) ⊎ StartsFull a log (prepared p x events a log).1
  unfolding prepared
  prepared-log (run_node cmd) log =
      let closure = node_closure p x events in
      elim (x.run_with_ran cmd (load_spec p.chains) closure log) [
        | inr (e, k) ↦ inl (ap (λ r. r.1) k)
        | inl (config, k) ↦ elim (node_closure-log config log) [
          | inl same ↦ inl (ap (λ r. r.1) k ∙ same)
          | inr (full, ran) ↦ inr (cmd, config, refl, full, ap (λ r. r.1) k ∙ ran)
        ]
      ]
  prepared-log (build_spec cmd) log = inl (done-log _ log)
  prepared-log (export_blocks cmd) log = inl (done-log _ log)
  prepared-log (import_blocks cmd) log = inl (done-log _ log)
  prepared-log (check_block cmd) log = inl (done-log _ log)
  prepared-log (purge_chain cmd) log = inl (done-log _ log)
  prepared-log (revert_chain cmd) log = inl (done-log _ log)
  prepared-log (custom_command cmd) log = inl refl

  prepared-ne-panic :
      (a : ParseAndPrepare x.Settings) (log : List (Effect p.full))
      → (prepared p x events a log).0 ≢ err (full_failed panic)
  unfolding prepared
  prepared-ne-panic (run_node cmd) log h =
      elim (x.run_with_ran cmd (load_spec p.chains) (node_closure p x events) log) [
        | inr (e, k) ↦ absurd (ground (arith, sym (ap (λ r. r.0) k) ∙ h))
        | inl (config, k) ↦ absurd (node_closure-ne-panic config log (sym (ap (λ r. r.0) k) ∙ h))
      ]
  prepared-ne-panic (build_spec cmd) log h = done-ne-panic _ log h
  prepared-ne-panic (export_blocks cmd) log h = done-ne-panic _ log h
  prepared-ne-panic (import_blocks cmd) log h = done-ne-panic _ log h
  prepared-ne-panic (check_block cmd) log h = done-ne-panic _ log h
  prepared-ne-panic (purge_chain cmd) log h = done-ne-panic _ log h
  prepared-ne-panic (revert_chain cmd) log h = done-ne-panic _ log h
  prepared-ne-panic (custom_command cmd) log h = ground (arith, h)

  -- If the program, however it ends and whatever happens, has spawned a task that makes blocks, then
  -- its arguments run a node, which is not a light one, has the role of an authority and is no
  -- sentry.
  pub run-authors :
      (args : x.Args) (version : VersionInfo)
      → authors p.full (run p x events args version []).1 ≡ true
      → (cmd : x.Settings) × (config : Config p) × (x.parse_and_prepare version "substrate-node"
            args
          ≡ run_node cmd)
        × (p.is_light config.roles ≡ false)
        × (p.full.is_authority config.roles ≡ true)
        × (config.sentry_mode ≡ false)
  unfolding run
  run-authors args version h =
      elim (prepared-log (x.parse_and_prepare version "substrate-node" args) []) [
        | inl kept ↦ absurd (ground (arith, kept, h))
        | inr (cmd, config, ran, full, log) ↦
            let (authority, active) =
              new_full-authors p.full config (sym (ap (authors p.full) log) ∙ h) in
            (cmd, config, ran, full, authority, active)
      ]

  -- No command ends in the panic of `expect`, whatever the arguments.
  run-ne-panic :
      (args : x.Args) (version : VersionInfo) (log : List (Effect p.full))
      → (run p x events args version log).0 ≢ err (full_failed panic)
  unfolding run
  run-ne-panic args version log =
      prepared-ne-panic (x.parse_and_prepare version "substrate-node" args) log
