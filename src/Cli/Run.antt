-- ===== src/Cli/Run.antt =====
-- vasaplatsen/src/cli.rs: `run_until_exit`, from the start of the service to the end of the runtime,
-- with the handler of `into_exit` beside it. What can happen is a sequence of events; the handler
-- runs on a thread of its own, which a panic ends.
use substrate_scaffold.Prelude.{
  Bool, true, false, ◌⊎◌, inl, inr, Option, none, some, List, [], ◌∷◌, ℕ, zero, suc,
}
use substrate_scaffold.Result.{Result, ok, err}
use substrate_scaffold.Cli.Exit.{ExitState, Panic, handle_signal, into_exit}

-- `error::Error`, as far as the code makes one.
pub data RunError (E : Type 0) : Type 0 where
  service : E → RunError E

-- Blocked on the service and the exit; waiting for the runtime to be idle; returned.
pub data Phase (E : Type 0) : Type 0 where
  running : Phase E
  stopping : Result (RunError E) (Unit {0}) → Phase E
  returned : Result (RunError E) (Unit {0}) → Phase E

-- `ended` is how the service has ended, if it has; `informed` whether the informant was told to.
pub record Node (E : Type 0) : Type 0 where
  pub exit : ExitState
  pub ended : Option (Result E (Unit {0}))
  pub phase : Phase E
  pub informed : Bool
  pub panicked : Option Panic

pub data Event (E : Type 0) : Type 0 where
  signal : Event E
  service_ends : Result E (Unit {0}) → Event E
  poll : Event E
  idle : Event E

-- `futures::select`, which asks its first future first.
select : {A B : Type 0} → Option A → Option B → Option (A ⊎ B)
select (some a) b = some (inl a)
select none (some b) = some (inr b)
select none none = none

map_err : {E F A : Type 0} → (E → F) → Result E A → Result F A
map_err f (ok a) = ok a
map_err f (err e) = err (f e)

map_option : {A B : Type 0} → (A → B) → Option A → Option B
map_option f none = none
map_option f (some a) = some (f a)

-- The receiver of `into_exit` is ready once a notification came through.
received : ℕ → Option (Unit {0})
received zero = none
received (suc n) = some tt

module _ {E : Type 0} where
  -- `select(service, exit).map(|_| Ok(()))`, with the service's `map_err` before it.
  block_on : Node E → Option (Result (RunError E) (Unit {0}))
  unfolding select map_err map_option received
  block_on n =
      let ended = map_option (map_err service) n.ended in
      map_option (λ either. ok tt) (select ended (received n.exit.delivered))

  after_handler : Result Panic (Unit {0}) × ExitState → Node E → Node E
  after_handler (ok tt, x) n = record n { exit = x }
  after_handler (err e, x) n = record n { exit = x; panicked = some e }

  handle : Option Panic → Node E → Node E
  unfolding after_handler
  handle none n = after_handler (handle_signal n.exit) n
  handle (some e) n = n

  end_service : Option (Result E (Unit {0})) → Result E (Unit {0}) → Option (Result E (Unit {0}))
  end_service none r = some r
  end_service (some r) s = some r

  -- As the selection is done, it drops the receiver, and the informant is told.
  unblock : Option (Result (RunError E) (Unit {0})) → Node E → Node E
  unblock none n = n
  unblock (some r) n = record n {
    phase = stopping r;
    exit = record n.exit { listening = false };
    informed = true;
  }

  poll_in : Phase E → Node E → Node E
  unfolding unblock block_on
  poll_in running n = unblock (block_on n) n
  poll_in (stopping r) n = n
  poll_in (returned r) n = n

  shut_down : Phase E → Phase E
  shut_down running = running
  shut_down (stopping r) = returned r
  shut_down (returned r) = returned r

  unfoldable pub step : Event E → Node E → Node E
  unfolding handle end_service poll_in shut_down
  step signal n = handle n.panicked n
  step (service_ends r) n = record n { ended = end_service n.ended r }
  step poll n = poll_in n.phase n
  step idle n = record n { phase = shut_down n.phase }

  -- `run_until_exit`, whose `into_exit` installs the handler as it starts.
  abbrev pub just_started : Node E
  just_started = record {
    exit = into_exit;
    ended = none;
    phase = running;
    informed = false;
    panicked = none;
  }

  unfoldable pub run_until_exit : List (Event E) → Node E → Node E
  unfolding step
  run_until_exit [] n = n
  run_until_exit (e ∷ es) n = run_until_exit es (step e n)
