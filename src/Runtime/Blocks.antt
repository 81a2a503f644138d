-- ===== src/Runtime/Blocks.antt =====
-- lib.rs with mod.rs: what blocks, made or imported through the runtime's interface, can do to the
-- storage of the anchors.
use substrate_scaffold.Prelude.{
  ℕ, ◌⊎◌, ◌*◌, ◌≡◌, inl, inr, sym, subst, ap, ◌∙◌, some, List, [], ◌∷◌, arith,
}
use substrate_scaffold.Result.{Result, ok}
use substrate_scaffold.Anchors.{DispatchError, LeafKey, AnchorKey, Pallet}
use substrate_scaffold.Anchors.Lifecycle.{
  Reach, Reach-trans, new_block, here, next, anchor_at, suspension_at, MayBecome, MayExtend,
  Reach-MayBecome, Reach-MayExtend,
}
use substrate_scaffold.Runtime.{minimum_period, slot_duration, minutes}
use substrate_scaffold.Runtime.Calls.{Chain, Modules, outer_dispatch}
use substrate_scaffold.Runtime.Reaching.{IsOrdinary, kept-Reach, outer_dispatch-cases}
use substrate_scaffold.Runtime.Api.{
  Follows, Block, Executive, apply_all, execute_block, initialize_block, apply_extrinsic,
  finalize_block, validate_transaction, offchain_worker, aura_slot_duration,
}

module _ {p : Pallet} {m : Modules p} (x : Executive p m) where
  -- What a node does with the state: it imports a block, or makes one, from its header on; or it has
  -- a transaction validated, or the offchain workers run.
  pub data NodeStep : Chain p m.Rest → Chain p m.Rest → Type 0 where
    imported :
        {s t : Chain p m.Rest} (b : Block x.Header x.Extrinsic)
        → execute_block x b s ≡ some t
        → NodeStep s t
    began :
        (h : x.Header) (s : Chain p m.Rest)
        → Follows (x.number h) s.pallet.block_number
        → NodeStep s (initialize_block x h s)
    included : (e : x.Extrinsic) (s : Chain p m.Rest) → NodeStep s (apply_extrinsic x e s).1
    ended : (s : Chain p m.Rest) → NodeStep s (finalize_block x s).1
    validated : (e : x.Extrinsic) (s : Chain p m.Rest) → NodeStep s (validate_transaction x e s).1
    worked : (n : ℕ) (s : Chain p m.Rest) → NodeStep s (offchain_worker x n s)

  pub data NodeReach (s : Chain p m.Rest) : Chain p m.Rest → Type 0 where
    start : NodeReach s s
    after : {t u : Chain p m.Rest} → NodeReach s t → NodeStep t u → NodeReach s u

  -- The extrinsic is signed by the account that is the sudo key then, and is not refused, and its
  -- call is one of Sudo that holds one of System or of the pallet: `sudo` of a call of System, or
  -- `sudo_as` of a call of the pallet, or of such a `sudo`.
  pub record IsSudo (e : x.Extrinsic) (s : Chain p m.Rest) : Type 0 where
    pub by_key : x.signer e ≡ some (m.key_of s.rest)
    pub outcome : Result (DispatchError p.SystemError) (Unit {0})
    pub not_refused : (x.apply e s).0 ≡ ok outcome
    pub not_ordinary : ¬ IsOrdinary p m (x.function e)

  -- One of the extrinsics, which run each after the one before it, is such a one.
  abbrev pub SomeOverride : List x.Extrinsic → Chain p m.Rest → Type 0
  SomeOverride [] s = ⊥
  SomeOverride (e ∷ es) s = IsSudo e s ⊎ SomeOverride es (x.apply e s).1

  abbrev pub StepOverride : {s t : Chain p m.Rest} → NodeStep s t → Type 0
  StepOverride (imported {s} b ran) = SomeOverride b.extrinsics (x.initialize b.header s)
  StepOverride (began h s e) = ⊥
  StepOverride (included e s) = SomeOverride (e ∷ []) s
  StepOverride (ended s) = ⊥
  StepOverride (validated e s) = ⊥
  StepOverride (worked n s) = ⊥

  -- At one of the steps.
  abbrev pub Override : {s t : Chain p m.Rest} → NodeReach s t → Type 0
  Override start = ⊥
  Override (after r st) = Override r ⊎ StepOverride st

  began-Reach :
      (h : x.Header) (s : Chain p m.Rest)
      → Follows (x.number h) s.pallet.block_number
      → Reach p s.pallet (x.initialize h s).pallet
  began-Reach h s (inl e) =
      let same = x.initialized h s ∙ ap (λ n. record s.pallet { block_number = n }) e in
      subst (λ z. Reach p s.pallet z) (sym same) (next here (new_block s.pallet))
  began-Reach h s (inr (one, first)) =
      let same = ap (λ n. record s.pallet { block_number = n }) (one ∙ sym first) in
      kept-Reach p m (x.initialized h s ∙ same)

  included-cases :
      (e : x.Extrinsic) (s : Chain p m.Rest) → Reach p s.pallet (x.apply e s).1.pallet ⊎ IsSudo e s
  included-cases e s = elim (x.applied e s) [
    | inl (why, refused, same) ↦ inl (kept-Reach p m same)
    | inr (origin, t, o, by, before, key, reported, result) ↦
        elim (outer_dispatch-cases p m (x.function e) origin t o) [
          | inl r ↦ inl (
              subst (λ z. Reach p s.pallet z) (sym result)
                (subst (λ z. Reach p z (outer_dispatch p m (x.function e) origin t).1.pallet) before
                  r))
          | inr (signed, h) ↦ inr (record {
            by_key = by _ signed ∙ ap some key;
            outcome = (outer_dispatch p m (x.function e) origin t).0;
            not_refused = reported;
            not_ordinary = h;
          })
        ]
  ]

  all-cases :
      (es : List x.Extrinsic) (s : Chain p m.Rest)
      → Reach p s.pallet (apply_all x.apply es s).pallet ⊎ SomeOverride es s
  all-cases [] s = inl here
  all-cases (e ∷ es) s = elim (included-cases e s) [
    | inr override ↦ inr (inl override)
    | inl first ↦ elim (all-cases es (x.apply e s).1) [
      | inl rest ↦ inl (Reach-trans p first rest)
      | inr override ↦ inr (inr override)
    ]
  ]

  NodeStep-cases :
      {s t : Chain p m.Rest} (st : NodeStep s t) → Reach p s.pallet t.pallet ⊎ StepOverride st
  unfolding execute_block initialize_block apply_extrinsic finalize_block validate_transaction
      offchain_worker
  NodeStep-cases (imported {s} {t} b ran) =
      let (number, result) = x.executed b s t ran in
      elim (all-cases b.extrinsics (x.initialize b.header s)) [
        | inl r ↦ inl (
            subst (λ z. Reach p s.pallet z) (sym (result ∙ x.finalized _))
              (Reach-trans p (began-Reach b.header s number) r))
        | inr override ↦ inr override
      ]
  NodeStep-cases (began h s e) = inl (began-Reach h s e)
  NodeStep-cases (included e s) = all-cases (e ∷ []) s
  NodeStep-cases (ended s) = inl (kept-Reach p m (x.finalized s))
  NodeStep-cases (validated e s) = inl (kept-Reach p m (x.validated e s))
  NodeStep-cases (worked n s) = inl (kept-Reach p m (x.worked n s))

  -- What a node does to the storage of the anchors, by importing blocks and making them, is a
  -- history of the pallet; or else the sudo key was used for one of System or of the pallet.
  pub NodeReach-cases :
      {s t : Chain p m.Rest} (r : NodeReach s t) → Reach p s.pallet t.pallet ⊎ Override r
  NodeReach-cases start = inl here
  NodeReach-cases (after r st) = elim (NodeReach-cases r) [
    | inr override ↦ inr (inl override)
    | inl before ↦ elim (NodeStep-cases st) [
      | inl last ↦ inl (Reach-trans p before last)
      | inr override ↦ inr (inr override)
    ]
  ]

  -- Whatever blocks a node makes and imports: an anchor that is posted keeps its block number until
  -- it is revoked, a revoked one stays revoked, and a suspension stays and its end does not come
  -- earlier; or else the sudo key signed one of the extrinsics, which was not refused, with a call
  -- of Sudo that holds one of System or of the pallet.
  pub NodeReach-lasting :
      {s t : Chain p m.Rest} (r : NodeReach s t)
      → (((k : AnchorKey p.trait) → MayBecome (anchor_at p s.pallet k) (anchor_at p t.pallet k))
          × ((k : LeafKey p.trait)
              → MayExtend (suspension_at p s.pallet k) (suspension_at p t.pallet k)))
        ⊎ Override r
  NodeReach-lasting r = elim (NodeReach-cases r) [
    | inl h ↦ inl (λ k. Reach-MayBecome p k h, λ k. Reach-MayExtend p k h)
    | inr override ↦ inr override
  ]

  -- The slots that the node's Aura asks the runtime for are as long as the runtime's constants take
  -- a block to be: `SLOT_DURATION`, of which `MINUTES` make 60000 milliseconds.
  pub aura_slot_duration_lem :
      (aura_slot_duration x ≡ slot_duration) × (minutes * aura_slot_duration x ≡ 60000)
  unfolding aura_slot_duration
  aura_slot_duration_lem =
      let e = x.aura_slot_lem minimum_period (omega arith) in (e, ap (λ n. minutes * n) e)
