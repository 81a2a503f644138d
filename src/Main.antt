-- ===== src/Main.antt =====
-- vasaplatsen/src/main.rs: the program, which runs the command line's `run` with its arguments, the
-- signal handler `Exit` and its version.
use substrate_scaffold.Prelude.{◌≡◌, String, List}
use substrate_scaffold.Result.{ok}
use substrate_scaffold.Service.{Effect}
use substrate_scaffold.Cli.{load_spec}
use substrate_scaffold.Cli.Command.{
  VersionInfo, Parts, Config, CliExternals, Command, run_node, Events, node_closure, run,
}
use substrate_scaffold.Cli.Finish.{Stopping, events_of, Ended, run-Ended}

-- What `env!` puts in as the program is built: the commit, and the version of the package.
pub record Built : Type 0 where
  pub vergen_sha_short : String
  pub cargo_pkg_version : String

abbrev pub version_of : Built → VersionInfo
version_of built = record {
  name = "Substrate Node";
  commit = built.vergen_sha_short;
  version = built.cargo_pkg_version;
  executable_name = "node-template";
  author = "Anonymous";
  description = "Template Node";
  support_url = "support.anonymous.an";
}

module _ (p : Parts) (x : CliExternals p) where
  unfoldable pub main : Built → Events p x → x.Args → Command p x.Error
  unfolding run
  main built events args = run p x events args (version_of built)

  -- How the program ends that is told to stop, if its thread then runs and the asynchronous runtime
  -- comes to be idle, which nothing in the code makes it be in time. Where its arguments run a node,
  -- `sc_cli` calls the closure with a configuration and the runtime is made: the program finishes
  -- without an error, whatever happened to the node and however its service ended, unless the start
  -- of the service that its role asks for, a full or a light one, failed, and then it ends in that
  -- error.
  main-Ended :
      (built : Built) (h : Stopping p x) (args : x.Args) (cmd : x.Settings) (config : Config p)
      (log : List (Effect p.full))
      → x.parse_and_prepare (version_of built) "substrate-node" args ≡ run_node cmd
      → x.run_with cmd (load_spec p.chains) (node_closure p x (events_of p x h)) log
        ≡ node_closure p x (events_of p x h) config log
      → x.new_runtime ≡ ok tt
      → Ended p x config log (main built (events_of p x h) args log).0
  unfolding main
  main-Ended built h args cmd config log = run-Ended p x h args (version_of built) cmd config log
