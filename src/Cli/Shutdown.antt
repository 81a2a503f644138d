-- ===== src/Cli/Shutdown.antt =====
-- cli.rs: how a node stops, whatever happens in whatever order: signals, the end of the service,
-- and when its threads come to run.
use substrate_scaffold.Prelude.{
  ◌<◌, ◌≡◌, ◌⊎◌, inl, refl, Bool, true, false, Option, none, some, List, [], ◌∷◌, ◌++◌, arith,
}
use substrate_scaffold.Result.{ok}
use substrate_scaffold.Storage.{is_some}
use substrate_scaffold.Cli.Exit.{ExitState, Panic, send_failed, handle_signal}
use substrate_scaffold.Cli.Run.{
  Phase, running, stopping, returned, Node, Event, signal, service_ends, poll, idle, step,
  just_started, run_until_exit,
}

module _ {E : Type 0} where
  -- A blocked node hears the handler, which still has its sender or has sent.
  abbrev IsHeard : Phase E → ExitState → Option Panic → Type 0
  IsHeard running x panicked =
      (x.listening ≡ true) × (panicked ≡ none) × ((x.sender ≡ true) ⊎ (0 < x.delivered))
  IsHeard (stopping r) x panicked = r ≡ ok tt
  IsHeard (returned r) x panicked = r ≡ ok tt

  abbrev IsLive : Node E → Type 0
  IsLive n = (n.exit.borrowed ≡ false) × IsHeard n.phase n.exit n.panicked

  step-IsLive : (e : Event E) (n : Node E) → IsLive n → IsLive (step e n)
  unfolding step handle_signal
  step-IsLive signal n live = ground arith
  step-IsLive (service_ends r) n live = live
  step-IsLive poll n live = ground arith
  step-IsLive idle n live = ground arith

  run_until_exit-IsLive :
      (es : List (Event E)) (n : Node E) → IsLive n → IsLive (run_until_exit es n)
  unfolding run_until_exit
  run_until_exit-IsLive [] n live = live
  run_until_exit-IsLive (e ∷ es) n live = run_until_exit-IsLive es (step e n) (step-IsLive e n live)

  -- What holds of a node that has just just_started holds later.
  just_started-IsLive : (es : List (Event E)) → IsLive (run_until_exit es just_started)
  just_started-IsLive es = run_until_exit-IsLive es just_started (refl, (refl, refl, inl refl))

  returned-ok : (n : Node E) (r : _) → IsLive n → n.phase ≡ returned r → r ≡ ok tt
  returned-ok n r live h = ground arith

  -- Whatever happens, `run_until_exit` returns no error: also if the service ended with one.
  pub run_until_exit-ok :
      (es : List (Event E)) (r : _)
      → (run_until_exit es just_started).phase ≡ returned r
      → r ≡ ok tt
  run_until_exit-ok es r h =
      returned-ok (run_until_exit es just_started) r (just_started-IsLive es) h

  run_until_exit-append :
      (es fs : List (Event E)) (n : Node E)
      → run_until_exit (es ++ fs) n ≡ run_until_exit fs (run_until_exit es n)
  unfolding run_until_exit
  run_until_exit-append [] fs n = refl
  run_until_exit-append (e ∷ es) fs n = run_until_exit-append es fs (step e n)

  -- What is to end a node: a signal, or the end of its service.
  abbrev pub IsWaking : Event E → Type 0
  IsWaking signal = Unit
  IsWaking (service_ends r) = Unit
  IsWaking poll = ⊥
  IsWaking idle = ⊥

  IsLive-returns :
      (e : Event E) (n : Node E)
      → IsWaking e
      → IsLive n
      → (run_until_exit (e ∷ poll ∷ idle ∷ []) n).phase ≡ returned (ok tt)
  unfolding run_until_exit handle_signal
  IsLive-returns signal n w live = ground arith
  IsLive-returns (service_ends r) n w live = ground arith
  IsLive-returns poll n w live = absurd w
  IsLive-returns idle n w live = absurd w

  -- Whatever happened before, the first signal or the end of the service ends the node: the next
  -- time that its thread runs it stops waiting for them, and it returns once its tasks are done.
  pub run_until_exit-returns :
      (es : List (Event E)) (e : Event E)
      → IsWaking e
      → (run_until_exit (es ++ e ∷ poll ∷ idle ∷ []) just_started).phase ≡ returned (ok tt)
  run_until_exit-returns es e w =
      rw (run_until_exit-append es (e ∷ poll ∷ idle ∷ []) just_started)
        (IsLive-returns e (run_until_exit es just_started) w (just_started-IsLive es))

-- What the first signal does to its handler, by whether the node still waits for it and whether the
-- service has ended: it panics if it comes after the node, woken by its service, stopped waiting.
abbrev pub late : {E : Type 0} → Bool → Bool → List (Event E) → Option Panic
late waits woken [] = none
late true woken (signal ∷ es) = none
late false woken (signal ∷ es) = some send_failed
late waits woken (service_ends r ∷ es) = late waits true es
late true true (poll ∷ es) = late false true es
late true false (poll ∷ es) = late true false es
late false woken (poll ∷ es) = late false woken es
late waits woken (idle ∷ es) = late waits woken es

module _ {E : Type 0} where
  -- A signal was handled: whatever comes, no handler panics any more.
  settled :
      (es : List (Event E)) (n : Node E)
      → n.exit.sender ≡ false
      → n.exit.borrowed ≡ false
      → (run_until_exit es n).panicked ≡ n.panicked
  unfolding run_until_exit handle_signal
  settled [] n s b = refl
  settled (signal ∷ es) n s b = ground (arith, settled es (step signal n))
  settled (service_ends r ∷ es) n s b = settled es (step (service_ends r) n) s b
  settled (poll ∷ es) n s b = ground (arith, settled es (step poll n))
  settled (idle ∷ es) n s b = settled es (step idle n) s b

  -- No signal was handled yet.
  abbrev IsQuiet : Node E → Type 0
  IsQuiet n =
      (n.exit.sender ≡ true)
      × (n.exit.borrowed ≡ false)
      × (n.exit.delivered ≡ 0)
      × (n.panicked ≡ none)

  abbrev waits : Phase E → Bool
  waits running = true
  waits (stopping r) = false
  waits (returned r) = false

  quiet :
      (es : List (Event E)) (n : Node E)
      → IsQuiet n
      → n.exit.listening ≡ waits n.phase
      → (run_until_exit es n).panicked ≡ late (waits n.phase) (is_some n.ended) es
  unfolding run_until_exit handle_signal
  quiet [] n q l = ground arith
  quiet (signal ∷ es) n q l = ground (arith, settled es (step signal n))
  quiet (service_ends r ∷ es) n q l = ground (arith, quiet es (step (service_ends r) n))
  quiet (poll ∷ es) n q l = ground (arith, quiet es (step poll n))
  quiet (idle ∷ es) n q l = ground (arith, quiet es (step idle n))

  -- No handler panics, except the first one, if its signal comes after the service has ended and
  -- `run_until_exit` has stopped waiting for it: then sending fails, since the receiver is gone.
  pub run_until_exit-late :
      (es : List (Event E)) → (run_until_exit es just_started).panicked ≡ late true false es
  run_until_exit-late es = quiet es just_started (refl, refl, refl, refl) refl
