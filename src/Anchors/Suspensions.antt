-- ===== src/Anchors/Suspensions.antt =====
-- mod.rs: how the suspension of a leaf comes to change.
use substrate_scaffold.Prelude.{
  ◌≡◌, ◌⊎◌, inl, inr, refl, sym, ap, subst, ◌∙◌, List, arith, Option, Option-cases, ◌≢◌, some, none,
}
use substrate_scaffold.Hasher.{Hashed}
use substrate_scaffold.Merkle.{MerkleRoot, ProofElement}
use substrate_scaffold.Result.{ok, Result-cases}
use substrate_scaffold.Anchors.{
  Pallet, State, LeafKey, UnixTimeSeconds, Document, create_anchor_call, revoke_anchor_call,
  suspend_leaf_call, dispatch, suspend_leaf,
}
use substrate_scaffold.Anchors.Effects.{dispatch-err, leaf_key_discrete}
use substrate_scaffold.Anchors.Outcomes.{IsAuthorized, suspend_leaf-ok_iff}
use substrate_scaffold.Anchors.Lifecycle.{
  Step, Reach, call, new_block, here, Reach-trans, suspension_at, MayExtend, Reach-MayExtend,
}
use native.Mathlib.Decide.{ℕ_discrete}
use substrate_scaffold.Anchors.Permanence.{suspension_of_suspend_leaf}
use substrate_scaffold.Anchors.Turning.{Reach-Turn}

end_discrete : Discrete (Option UnixTimeSeconds)
end_discrete = hlevel ℕ_discrete

some-end : (a : Option UnixTimeSeconds) (m n : UnixTimeSeconds) → a ≡ some m → a ≡ some n → m ≡ n
some-end a m n p q = ground arith

never_ended : (a b : Option UnixTimeSeconds) → MayExtend a b → b ≡ none → a ≡ none
never_ended none b m e = refl
never_ended (some end) b m e = absurd (cc (e, m.1))

module _ (p : Pallet) (admins : MerkleRoot p.AccountId p.TreeHashOut) where
  -- A successful suspension on the way from `s` to `t`.
  pub record Suspension (leaf : Hashed Document p.TreeHashOut) (s t : State p) : Type 0 where
    pub before : State p
    pub reached : Reach p s before
    pub origin : p.Origin
    pub proof : List (ProofElement p.TreeHashOut)
    pub end : UnixTimeSeconds
    pub succeeded : (suspend_leaf p origin admins leaf proof end before).0 ≡ ok tt
    pub later : Reach p (suspend_leaf p origin admins leaf proof end before).1 t
    pub authorized : IsAuthorized p origin admins proof

  abbrev pub Suspension-in :
      (leaf : Hashed Document p.TreeHashOut) (origin : p.Origin)
      (proof : List (ProofElement p.TreeHashOut)) (end : UnixTimeSeconds) (s : State p)
      → (suspend_leaf p origin admins leaf proof end s).0 ≡ ok tt
      → Suspension leaf s (suspend_leaf p origin admins leaf proof end s).1
  Suspension-in leaf origin proof end s k = record {
    before = s;
    reached = here;
    origin = origin;
    proof = proof;
    end = end;
    succeeded = k;
    later = here;
    authorized = ((suspend_leaf-ok_iff p origin admins leaf proof end s).0 k).0;
  }

  abbrev pub Suspension-within :
      {s t u v : State p} (leaf : Hashed Document p.TreeHashOut)
      → Reach p s t
      → Suspension leaf t u
      → Reach p u v
      → Suspension leaf s v
  Suspension-within leaf r w q = record {
    before = w.before;
    reached = Reach-trans p r w.reached;
    origin = w.origin;
    proof = w.proof;
    end = w.end;
    succeeded = w.succeeded;
    later = Reach-trans p w.later q;
    authorized = w.authorized;
  }

module _ (p : Pallet) (admins : MerkleRoot p.AccountId p.TreeHashOut)
    (leaf : Hashed Document p.TreeHashOut) where
  -- A successful `suspend_leaf` on the way, until `end`.
  abbrev pub Until : UnixTimeSeconds → State p → State p → Type 0
  Until end s t = (w : Suspension p admins leaf s t) × (w.end ≡ end)

  abbrev Ends : UnixTimeSeconds → State p → Type 0
  Ends end s = suspension_at p s (admins, leaf) ≡ some end

  own-Until :
      (origin : p.Origin) (proof : List (ProofElement p.TreeHashOut)) (given end : UnixTimeSeconds)
      (s : State p)
      → (suspend_leaf p origin admins leaf proof given s).0 ≡ ok tt
      → Ends end (suspend_leaf p origin admins leaf proof given s).1
      → Until end s (suspend_leaf p origin admins leaf proof given s).1
  own-Until origin proof given end s k e = (
    Suspension-in p admins leaf origin proof given s k,
    some-end _ given end (suspension_of_suspend_leaf p origin admins leaf proof given s k) e,
  )

  Step-Until :
      {s t : State p} (end : UnixTimeSeconds)
      → Step p s t
      → ¬ Ends end s
      → Ends end t
      → Until end s t
  unfolding dispatch
  Step-Until end (new_block s) h e = absurd (h e)
  Step-Until end (call origin (create_anchor_call a r) s) h e = absurd (ground (arith, h, e))
  Step-Until end (call origin (revoke_anchor_call a r proof) s) h e = absurd (ground (arith, h, e))
  Step-Until end (call origin (suspend_leaf_call a l proof given) s) h e =
      elim (Result-cases (suspend_leaf p origin a l proof given s).0) [
        | inl (done, k) ↦ elim (leaf_key_discrete p.trait (a, l) (admins, leaf)) [
          | yes q ↦
              let after = λ (z : LeafKey p.trait). suspend_leaf p origin z.0 z.1 proof given s in
              subst (λ z. ((after z).0 ≡ ok tt) → Ends end (after z).1 → Until end s (after z).1)
                (sym q) (own-Until origin proof given end s) k e
          | no q ↦ absurd (
              ground (
                arith,
                p.SuspendedLeaves.get-insert_ne s.suspended_leaves (a, l) (admins, leaf) given q,
              ))
        ]
        | inr (x, k) ↦ absurd (
            h (
              sym (
                ap (λ u. suspension_at p u (admins, leaf))
                  (dispatch-err p origin (suspend_leaf_call a l proof given) s x k))
              ∙ e))
      ]

  Ends-cases : (end : UnixTimeSeconds) (s : State p) → Ends end s ⊎ (¬ Ends end s)
  Ends-cases end s = elim (end_discrete (suspension_at p s (admins, leaf)) (some end)) [
    | yes e ↦ inl e
    | no e ↦ inr e
  ]

  -- The end that is stored for a leaf was given in a successful `suspend_leaf` of it on the way, if
  -- it was not stored at the start.
  pub Reach-Until :
      {s t : State p} (end : UnixTimeSeconds)
      → Reach p s t
      → suspension_at p s (admins, leaf) ≢ some end
      → suspension_at p t (admins, leaf) ≡ some end
      → Until end s t
  Reach-Until end r h e =
      let w = Reach-Turn p (Ends end) (Ends-cases end) r h e in
      let (c, given) = Step-Until end w.step w.not_yet w.now in
      (Suspension-within p admins leaf w.reached c w.later, given)

module _ (p : Pallet) (admins : MerkleRoot p.AccountId p.TreeHashOut) where
  -- Over a history, either the suspension of a leaf stays the same, or there is a successful
  -- `suspend_leaf` of it on the way.
  pub suspended_by_authority :
      {s t : State p} (leaf : Hashed Document p.TreeHashOut)
      → Reach p s t
      → (suspension_at p t (admins, leaf) ≡ suspension_at p s (admins, leaf))
        ⊎ Suspension p admins leaf s t
  suspended_by_authority {s} {t} leaf r = elim (Option-cases (suspension_at p t (admins, leaf))) [
    | inr (end, e) ↦ elim (end_discrete (suspension_at p s (admins, leaf)) (some end)) [
      | yes same ↦ inl (e ∙ sym same)
      | no new ↦ inr (Reach-Until p admins leaf end r new e).0
    ]
    | inl e ↦ inl (e ∙ sym (never_ended _ _ (Reach-MayExtend p (admins, leaf) r) e))
  ]
