-- ===== src/Cli.antt =====
-- vasaplatsen/src/cli.rs: loading a specification by its name. `Exit` has the signal handler and
-- `Run` how the node runs until it is to stop.
pub mod Names
pub mod Exit
pub mod Run
pub mod Shutdown
pub mod Command
pub mod Dispatch
pub mod Finish
pub mod Start
use substrate_scaffold.Prelude.{
  ℕ, suc, ◌+◌, ◌≡◌, String, Bool, true, false, Option, none, some, List, [], ◌∷◌, if◌then◌else◌,
}
use substrate_scaffold.Result.{Result, ok, err, Exec, pure, bind, ◌>>=◌, ◌>>◌, lift, gets, modify}
use substrate_scaffold.ChainSpec.{Externals, ChainSpec, Alternative, from, load}

module _ (x : Externals) where
  loaded : Result String (ChainSpec x) → Result String (Option (ChainSpec x))
  loaded (ok spec) = ok (some spec)
  loaded (err e) = err e

  -- `match chain_spec::Alternative::from(id)`
  load_found : Option Alternative → Result String (Option (ChainSpec x))
  unfolding loaded
  load_found (some spec) = loaded (load x spec)
  load_found none = ok none

  unfoldable pub load_spec : String → Result String (Option (ChainSpec x))
  unfolding load_found
  load_spec id = load_found (from id)
