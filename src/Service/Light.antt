-- ===== src/Service/Light.antt =====
-- vasaplatsen/src/service.rs: the start of a light node, `new_light`. What substrate provides is in
-- `LightExternals`.
use substrate_scaffold.Prelude.{◌≡◌, String, Option, none, some}
use substrate_scaffold.Result.{Result, ok, err}
use substrate_scaffold.Service.{Configuration}

-- The types and calls of substrate that `new_light` uses. A builder hands its fetcher, which it may
-- lack, to the two closures; the laws are what the service builder documents: each step succeeds
-- only by calling its closure, and only if that succeeds.
pub record LightExternals : Type 1 where
  pub Roles : Type 0
  pub Error : Type 0
  pub error_of : String → Error
  pub Builder : Type 0
  pub Service : Type 0
  pub Client : Type 0
  pub Fetcher : Type 0
  pub Checker : Type 0
  pub Backend : Type 0
  pub Pool : Type 0
  pub Import : Type 0
  pub ProofBuilder : Type 0
  pub SlotDuration : Type 0
  pub Queue : Type 0
  pub builder_new_light : Configuration Roles → Result Error Builder
  pub with_select_chain : Builder → Result Error Builder
  pub fetcher : Builder → Option Fetcher
  pub with_transaction_pool :
      Builder → (Client → Option Fetcher → Result Error Pool) → Result Error Builder
  pub with_transaction_pool_ran :
      (b : Builder) (f : Client → Option Fetcher → Result Error Pool) (b' : Builder)
      → with_transaction_pool b f ≡ ok b'
      → (c : Client) × (pool : Pool) × (f c (fetcher b) ≡ ok pool)
  pub light_pool : Client → Fetcher → Pool
  pub with_import_queue_and_fprb :
      Builder
      → (Client → Backend → Option Fetcher → Result Error (Queue × ProofBuilder))
      → Result Error Builder
  pub with_import_queue_and_fprb_ran :
      (b : Builder) (f : Client → Backend → Option Fetcher → Result Error (Queue × ProofBuilder))
      (b' : Builder)
      → with_import_queue_and_fprb b f ≡ ok b'
      → (c : Client) × (backend : Backend) × (made : Queue × ProofBuilder) × (f c backend
            (fetcher b)
          ≡ ok made)
  pub checker : Fetcher → Checker
  pub light_block_import : Client → Backend → Checker → Result Error Import
  pub create_finality_proof_request_builder : Import → ProofBuilder
  pub get_or_compute : Client → Result Error SlotDuration
  pub import_queue : SlotDuration → Import → Import → Client → Result Error Queue
  pub with_network_protocol : Builder → Result Error Builder
  pub with_finality_proof_provider : Builder → Result Error Builder
  pub build : Builder → Result Error Service

infixl 5 ◌>>=◌
-- `?`, which passes an error on.
abbrev pub ◌>>=◌ : {E A B : Type 0} → Result E A → (A → Result E B) → Result E B
err failure >>= rest = err failure
ok value >>= rest = rest value

module _ (x : LightExternals) where
  -- `.ok_or_else(|| message)?`
  abbrev required : {A : Type 0} → String → Option A → Result x.Error A
  required message none = err (x.error_of message)
  required message (some a) = ok a

  -- The closure given to `with_transaction_pool`.
  unfoldable pub transaction_pool_closure : x.Client → Option x.Fetcher → Result x.Error x.Pool
  transaction_pool_closure client fetcher = do
    present ← required "Trying to start light transaction pool without active fetcher" fetcher
    ok (x.light_pool client present)

  checker_of : Option x.Fetcher → Option x.Checker
  checker_of none = none
  checker_of (some fetcher) = some (x.checker fetcher)

  -- The closure given to `with_import_queue_and_fprb`.
  unfoldable pub light_import_queue_closure :
      x.Client → x.Backend → Option x.Fetcher → Result x.Error (x.Queue × x.ProofBuilder)
  unfolding checker_of
  light_import_queue_closure client backend fetcher = do
    fetch_checker ←
        required "Trying to start light import queue without active fetch checker"
          (checker_of fetcher)
    grandpa_block_import ← x.light_block_import client backend fetch_checker
    slot ← x.get_or_compute client
    queue ← x.import_queue slot grandpa_block_import grandpa_block_import client
    ok (queue, x.create_finality_proof_request_builder grandpa_block_import)

  unfoldable pub new_light : Configuration x.Roles → Result x.Error x.Service
  unfolding transaction_pool_closure light_import_queue_closure
  new_light config = do
    fresh ← x.builder_new_light config
    chained ← x.with_select_chain fresh
    pooled ← x.with_transaction_pool chained transaction_pool_closure
    queued ← x.with_import_queue_and_fprb pooled light_import_queue_closure
    protocol ← x.with_network_protocol queued
    provider ← x.with_finality_proof_provider protocol
    x.build provider
