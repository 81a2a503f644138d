-- ===== src/Cli/Exit.antt =====
-- vasaplatsen/src/cli.rs: the signal handler that `into_exit` installs, with its cell and channel.
use substrate_scaffold.Prelude.{ℕ, ◌+◌, Bool, true, false, if◌then◌else◌}
use substrate_scaffold.Result.{ok, err, Exec, pure, ◌>>=◌, ◌>>◌}

-- The cell of `into_exit` and its channel: `sender` is what the `RefCell` holds, `borrowed`
-- whether a handler is in it, `delivered` how many notifications came through, `listening` whether
-- the receiver is still there.
pub record ExitState : Type 0 where
  pub sender : Bool
  pub borrowed : Bool
  pub delivered : ℕ
  pub listening : Bool

pub data Panic : Type 0 where
  not_reentrant send_failed : Panic

abbrev pub Handler : Type 0 → Type 0
Handler = Exec ExitState Panic

-- `exit_send_cell.try_borrow_mut().expect(…)`, held until the value is taken.
borrow : Handler (Unit {0})
borrow s = if s.borrowed then (err not_reentrant, s) else (ok tt, record s { borrowed = true })

-- `.take()`, at the end of which the borrow is given back.
take_sender : Handler Bool
take_sender s = (ok s.sender, record s { sender = false; borrowed = false })

-- `exit_send.send(()).expect(…)`: it fails if the receiver is gone.
send : Handler (Unit {0})
send s =
    if s.listening then (ok tt, record s { delivered = s.delivered + 1 }) else (err send_failed, s)

-- The closure given to `ctrlc::set_handler`.
unfoldable pub handle_signal : Handler (Unit {0})
unfolding borrow take_sender send
handle_signal = do borrow; exit_send ← take_sender; if exit_send then send else pure tt

-- `into_exit`: the sender waits in the cell.
abbrev pub into_exit : ExitState
into_exit = record { sender = true; borrowed = false; delivered = 0; listening = true }
