-- ===== src/Service/Roles.antt =====
-- service.rs: which tasks a full node runs, by its configuration, and the panic in its start.
use substrate_scaffold.Prelude.{
  ◌≡◌, ◌≢◌, inl, inr, refl, Bool, true, false, Option, none, List, [], ◌∷◌, map, arith,
}
use substrate_scaffold.Result.{Result-cases, Result, ok, err, Exec, bind, ◌>>=◌, lift}
use substrate_scaffold.Service.{
  Configuration, Externals, panic, ImportSetup, import_queue_closure, new_full_start, Effect,
  essential_aura, grandpa_observer, essential_voter, disabled_grandpa_set_up, new_full,
}

-- Inversion of a successful step.
bind-eq-ok :
    {S E A B : Type 0} (f : A → Exec S E B) (r : Result E A × S) {b : B} {t : S}
    → bind f r ≡ (ok b, t)
    → (a : A) × (s : S) × (r ≡ (ok a, s)) × (f a s ≡ (ok b, t))
bind-eq-ok f (ok a, s) h = (a, s, refl, h)
bind-eq-ok f (err e, s) h = ground arith

pair_eq {ℓ κ} : {A : Type ℓ} {B : Type κ} (r : A × B) (a : A) → r.0 ≡ a → r ≡ (a, r.1)
pair_eq (a, b) c e = ground arith

pub data TaskKind : Type 0 where
  aura observer voter disabled : TaskKind

-- What a node is to run, or to be set up without, by whether it is an authority, a sentry, and without Grandpa.
abbrev pub planned : Bool → Bool → Bool → List TaskKind
planned true false false = aura ∷ voter ∷ []
planned true false true = aura ∷ disabled ∷ []
planned true true false = voter ∷ []
planned true true true = disabled ∷ []
planned false sentry false = observer ∷ []
planned false sentry true = disabled ∷ []

module _ (x : Externals) where
  abbrev pub kind : Effect x → TaskKind
  kind (essential_aura t) = aura
  kind (grandpa_observer t) = observer
  kind (essential_voter t) = voter
  kind disabled_grandpa_set_up = disabled

  closure_sets :
      (c : x.Client) (chain : Option x.SelectChain) (pool : x.Pool) (s t : ImportSetup x)
      (q : x.Queue)
      → import_queue_closure x c chain pool s ≡ (ok q, t)
      → t ≢ none
  unfolding import_queue_closure
  closure_sets c chain pool s t q h e = ground arith

  start_sets :
      (config : Configuration x.Roles) (b : x.Builder) (t : ImportSetup x)
      → new_full_start x config none ≡ (ok b, t)
      → t ≢ none
  unfolding new_full_start
  start_sets config b t h =
      let queued = λ (pooled : x.Builder). x.with_import_queue pooled (import_queue_closure x) in
      let pool = λ (chained : x.Builder). lift (x.with_transaction_pool chained) >>= queued in
      let chain = λ (fresh : x.Builder). lift (x.with_select_chain fresh) >>= pool in
      let (a, s, e, h1) = bind-eq-ok chain (x.builder_new_full config, none) h in
      let (a1, s1, e1, h2) = bind-eq-ok pool (x.with_select_chain a, s) h1 in
      let (a2, s2, e2, h3) = bind-eq-ok queued (x.with_transaction_pool a1, s1) h2 in
      let (c, selected, p, q, ran) =
        x.with_import_queue_ran a2 (import_queue_closure x) s2 b t h3 in
      closure_sets c selected p s2 t q ran

  -- The `expect` on the import setup never panics, and nothing else in `new_full` does: whatever
  -- substrate's calls return, the setup is present or the start has failed before.
  pub new_full-ne-panic :
      (config : Configuration x.Roles) (log : List (Effect x))
      → (new_full x config log).0 ≢ err panic
  unfolding new_full
  new_full-ne-panic config log h = elim (Result-cases (new_full_start x config none).0) [
    | inl (b, e) ↦ absurd (
        ground (
          arith,
          start_sets config b (new_full_start x config none).1
              (pair_eq (new_full_start x config none) (ok b) e),
        ))
    | inr (e, f) ↦ absurd (ground arith)
  ]

  -- A started node has spawned exactly the tasks that are planned for its configuration, and made
  -- the set-up to do without Grandpa where that is planned, in order.
  pub new_full-planned :
      (config : Configuration x.Roles) {service : x.Service} {log : List (Effect x)}
      → new_full x config [] ≡ (ok service, log)
      → map kind log
        ≡ planned (x.is_authority config.roles) config.sentry_mode config.disable_grandpa
  unfolding new_full
  new_full-planned config h = ground arith

  -- Some task of a log makes blocks.
  abbrev pub authors : List (Effect x) → Bool
  authors [] = false
  authors (essential_aura t ∷ log) = true
  authors (task ∷ log) = authors log

  -- However the start of a node ends, with a service, an error, and at whatever call: a task that
  -- makes blocks runs only in an authority that is no sentry.
  pub new_full-authors :
      (config : Configuration x.Roles)
      → authors (new_full x config []).1 ≡ true
      → (x.is_authority config.roles ≡ true) × (config.sentry_mode ≡ false)
  unfolding new_full
  new_full-authors config h = ground arith
