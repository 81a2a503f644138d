-- ===== src/Service/Fetching.antt =====
-- service.rs: what a light node needs to start.
use substrate_scaffold.Prelude.{◌≡◌, inl, inr, refl, Option, none, some, arith}
use substrate_scaffold.Result.{Result, ok, Result-cases}
use substrate_scaffold.Service.{Configuration}
use substrate_scaffold.Service.Light.{
  LightExternals, transaction_pool_closure, light_import_queue_closure, new_light, ◌>>=◌,
}

-- What a `?` that succeeds went through: its value, and the success of what follows.
record Passed {E A B : Type 0} (r : Result E A) (rest : A → Result E B) (b : B) : Type 0 where
  value : A
  is_ok : r ≡ ok value
  goes_on : rest value ≡ ok b

Passed-of :
    {E A B : Type 0} {b : B} (r : Result E A) (rest : A → Result E B)
    → (r >>= rest) ≡ ok b
    → Passed r rest b
Passed-of r rest h = elim (Result-cases r) [
  | inl (a, e) ↦ record { value = a; is_ok = e; goes_on = ground arith }
  | inr (e, q) ↦ absurd (ground arith)
]

module _ (x : LightExternals) where
  pool_fetcher :
      (c : x.Client) (found : Option x.Fetcher) (pool : x.Pool)
      → transaction_pool_closure x c found ≡ ok pool
      → (f : x.Fetcher) × (found ≡ some f)
  unfolding transaction_pool_closure
  pool_fetcher c none pool h = cc
  pool_fetcher c (some f) pool h = (f, refl)

  queue_fetcher :
      (c : x.Client) (backend : x.Backend) (found : Option x.Fetcher)
      (made : x.Queue × x.ProofBuilder)
      → light_import_queue_closure x c backend found ≡ ok made
      → (f : x.Fetcher) × (grandpa : x.Import) × (found ≡ some f)
        × (x.light_block_import c backend (x.checker f) ≡ ok grandpa)
        × (made.1 ≡ x.create_finality_proof_request_builder grandpa)
  unfolding light_import_queue_closure
  queue_fetcher c backend none made h = cc
  queue_fetcher c backend (some f) made h =
      let made_import = Passed-of (x.light_block_import c backend (x.checker f)) _ h in
      (f, made_import.value, refl, made_import.is_ok, ground (arith, made_import.goes_on))

  -- A light node starts only if its builder has a fetcher, for the transaction pool and for the
  -- import queue both, and only with a Grandpa import that was made for that fetcher's checker.
  pub new_light-eq-ok :
      (config : Configuration x.Roles) {service : x.Service}
      → new_light x config ≡ ok service
      → (chained : x.Builder) × (pooled : x.Builder) × (first : x.Fetcher) × (second : x.Fetcher)
        × (client : x.Client) × (backend : x.Backend) × (grandpa : x.Import) × ((x.builder_new_light
                config
              >>= x.with_select_chain)
            ≡ ok chained)
        × (x.fetcher chained ≡ some first)
        × (x.with_transaction_pool chained (transaction_pool_closure x) ≡ ok pooled)
        × (x.fetcher pooled ≡ some second)
        × (x.light_block_import client backend (x.checker second) ≡ ok grandpa)
  unfolding new_light
  new_light-eq-ok config h =
      let fresh = Passed-of (x.builder_new_light config) _ h in
      let chained = Passed-of (x.with_select_chain fresh.value) _ fresh.goes_on in
      let pooled =
        Passed-of (x.with_transaction_pool chained.value (transaction_pool_closure x)) _
          chained.goes_on in
      let queued =
        Passed-of (x.with_import_queue_and_fprb pooled.value (light_import_queue_closure x)) _
          pooled.goes_on in
      let (c, pool, ran) =
        x.with_transaction_pool_ran chained.value (transaction_pool_closure x) pooled.value
          pooled.is_ok in
      let (first, found) = pool_fetcher c (x.fetcher chained.value) pool ran in
      let (client, backend, made, ran') =
        x.with_import_queue_and_fprb_ran pooled.value (light_import_queue_closure x) queued.value
          queued.is_ok in
      let (second, grandpa, found', imported, _) =
        queue_fetcher client backend (x.fetcher pooled.value) made ran' in
      (
        chained.value,
        pooled.value,
        first,
        second,
        client,
        backend,
        grandpa,
        rw fresh.is_ok chained.is_ok,
        found,
        pooled.is_ok,
        found',
        imported,
      )
