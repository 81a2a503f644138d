-- ===== src/Anchors/Commute.antt =====
-- mod.rs: the order of calls.
use mathlib.Core.Logic.{ite, if_pos, if_neg}
use substrate_scaffold.Prelude.{
  ℕ, ◌≡◌, ◌≢◌, ◌⊎◌, refl, sym, ap, ◌∙◌, inl, inr, Bool, true, false, Option, some,
}
use substrate_scaffold.Result.{Result, ok, err, Result-cases}
use substrate_scaffold.Anchors.{
  Pallet, State, Revokable, AnchorKey, LeafKey, Call, create_anchor_call, revoke_anchor_call,
  suspend_leaf_call, dispatch, lookup_anchor,
}
use substrate_scaffold.Anchors.Effects.{anchor_key_discrete, leaf_key_discrete, dispatch-err}
use substrate_scaffold.Anchors.Lifecycle.{anchor_at, suspension_at}
use substrate_scaffold.Anchors.Independence.{Sees, dispatch-Sees}
use substrate_scaffold.Anchors.Ledger.{Ledger, ledger_of, recorded, Ledger-ext, dispatch-recorded}

-- Two updates of a map at different keys can be swapped.
ite-swap :
    {K V : Type 0} (dec : Discrete K) (a b k : K) (x y z : V)
    → a ≢ b
    → ite (dec a k) x (ite (dec b k) y z) ≡ ite (dec b k) y (ite (dec a k) x z)
ite-swap dec a b k x y z h = elim (dec a k) [
  | yes e ↦ elim (dec b k) [
    | yes q ↦ absurd (h (e ∙ sym q))
    | no q ↦ rw (if_pos _ e, if_neg _ q) (sym (if_pos (dec a k) e x z))
  ]
  | no e ↦ rw (if_neg _ e) (ap (ite (dec b k) y) (sym (if_neg (dec a k) e x z)))
]

module _ (p : Pallet) where
  -- The entry of the storage that a call is about.
  abbrev pub entry : Call p.trait → AnchorKey p.trait ⊎ LeafKey p.trait
  entry (create_anchor_call admins root) = inl (admins, root)
  entry (revoke_anchor_call admins root proof) = inl (admins, root)
  entry (suspend_leaf_call admins leaf proof end) = inr (admins, leaf)

  pub succeeds : {E A : Type 0} → Result E A → Bool
  succeeds (ok a) = true
  succeeds (err e) = false

  -- What a call makes of the ledger, by whether it succeeds.
  pub effect : Bool → Call p.trait → Ledger p → Ledger p
  effect true c l = recorded p c l
  effect false c l = l

  pub dispatch-effect :
      (origin : p.Origin) (c : Call p.trait) (s : State p)
      → ledger_of p (dispatch p origin c s).1
        ≡ effect (succeeds (dispatch p origin c s).0) c (ledger_of p s)
  unfolding succeeds effect
  dispatch-effect origin c s = elim (Result-cases (dispatch p origin c s).0) [
    | inl (done, e) ↦ rw e (dispatch-recorded p origin c s e)
    | inr (x, e) ↦ rw e (ap (ledger_of p) (dispatch-err p origin c s x e))
  ]

  anchor_swap :
      (a b : AnchorKey p.trait) (x y : Revokable ℕ) (l : Ledger p)
      → ◌≢◌ {A = AnchorKey p.trait ⊎ LeafKey p.trait} (inl a) (inl b)
      → (k : AnchorKey p.trait)
      → ite
          (anchor_key_discrete p.trait a k)
          (some x)
          (ite (anchor_key_discrete p.trait b k) (some y) (l.anchors k))
        ≡ ite
            (anchor_key_discrete p.trait b k)
            (some y)
            (ite (anchor_key_discrete p.trait a k) (some x) (l.anchors k))
  anchor_swap a b x y l h k =
      ite-swap (anchor_key_discrete p.trait) a b k (some x) (some y) (l.anchors k)
        (λ e. h (ap inl e))

  recorded-commute :
      (c e : Call p.trait) (l : Ledger p)
      → entry c ≢ entry e
      → recorded p c (recorded p e l) ≡ recorded p e (recorded p c l)
  recorded-commute (create_anchor_call a r) (create_anchor_call b q) l h =
      Ledger-ext p (anchor_swap (a, r) (b, q) _ _ l h) (λ k. refl) refl
  recorded-commute (create_anchor_call a r) (revoke_anchor_call b q proof) l h =
      Ledger-ext p (anchor_swap (a, r) (b, q) _ _ l h) (λ k. refl) refl
  recorded-commute (revoke_anchor_call a r proof) (create_anchor_call b q) l h =
      Ledger-ext p (anchor_swap (a, r) (b, q) _ _ l h) (λ k. refl) refl
  recorded-commute (revoke_anchor_call a r proof) (revoke_anchor_call b q other) l h =
      Ledger-ext p (anchor_swap (a, r) (b, q) _ _ l h) (λ k. refl) refl
  recorded-commute (create_anchor_call a r) (suspend_leaf_call b m other last) l h = refl
  recorded-commute (revoke_anchor_call a r proof) (suspend_leaf_call b m other last) l h = refl
  recorded-commute (suspend_leaf_call a m proof end) (create_anchor_call b q) l h = refl
  recorded-commute (suspend_leaf_call a m proof end) (revoke_anchor_call b q other) l h = refl
  recorded-commute (suspend_leaf_call a m proof end) (suspend_leaf_call b n other last) l h =
      Ledger-ext p (λ k. refl)
        (λ k.
          ite-swap (leaf_key_discrete p.trait) (a, m) (b, n) k (some end) (some last)
            (l.suspensions k) (λ e. h (ap inr e)))
        refl

  effect-commute :
      (x y : Bool) (c e : Call p.trait) (l : Ledger p)
      → entry c ≢ entry e
      → effect x c (effect y e l) ≡ effect y e (effect x c l)
  unfolding effect
  effect-commute true true c e l h = recorded-commute c e l h
  effect-commute true false c e l h = refl
  effect-commute false y c e l h = refl

  anchor_kept :
      (a b : AnchorKey p.trait) (x y : Option (Revokable ℕ))
      → ◌≢◌ {A = AnchorKey p.trait ⊎ LeafKey p.trait} (inl a) (inl b)
      → ite (anchor_key_discrete p.trait b a) x y ≡ y
  anchor_kept a b x y h = if_neg (anchor_key_discrete p.trait b a) (λ e. h (ap inl (sym e))) x y

  recorded-Sees :
      (c e : Call p.trait) (s t : State p)
      → entry c ≢ entry e
      → ledger_of p t ≡ recorded p e (ledger_of p s)
      → Sees p c s t
  unfolding lookup_anchor
  recorded-Sees (create_anchor_call a r) (create_anchor_call b q) s t h e =
      ap (λ l. l.anchors (a, r)) e ∙ anchor_kept (a, r) (b, q) _ _ h
  recorded-Sees (create_anchor_call a r) (revoke_anchor_call b q proof) s t h e =
      ap (λ l. l.anchors (a, r)) e ∙ anchor_kept (a, r) (b, q) _ _ h
  recorded-Sees (revoke_anchor_call a r proof) (create_anchor_call b q) s t h e =
      ap (λ l. l.anchors (a, r)) e ∙ anchor_kept (a, r) (b, q) _ _ h
  recorded-Sees (revoke_anchor_call a r proof) (revoke_anchor_call b q other) s t h e =
      ap (λ l. l.anchors (a, r)) e ∙ anchor_kept (a, r) (b, q) _ _ h
  recorded-Sees (create_anchor_call a r) (suspend_leaf_call b m proof end) s t h e =
      ap (λ l. l.anchors (a, r)) e
  recorded-Sees (revoke_anchor_call a r proof) (suspend_leaf_call b m other end) s t h e =
      ap (λ l. l.anchors (a, r)) e
  recorded-Sees (suspend_leaf_call a m proof end) (create_anchor_call b q) s t h e =
      ap (λ l. l.suspensions (a, m)) e
  recorded-Sees (suspend_leaf_call a m proof end) (revoke_anchor_call b q other) s t h e =
      ap (λ l. l.suspensions (a, m)) e
  recorded-Sees (suspend_leaf_call a m proof end) (suspend_leaf_call b n other last) s t h e =
      ap (λ l. l.suspensions (a, m)) e
      ∙ if_neg (leaf_key_discrete p.trait (b, n) (a, m)) (λ k. h (ap inr (sym k))) _ _

  same-Sees : (c : Call p.trait) (s t : State p) → t ≡ s → Sees p c s t
  unfolding lookup_anchor
  same-Sees (create_anchor_call a r) s t e = ap (λ u. anchor_at p u (a, r)) e
  same-Sees (revoke_anchor_call a r proof) s t e = ap (λ u. anchor_at p u (a, r)) e
  same-Sees (suspend_leaf_call a m proof end) s t e = ap (λ u. suspension_at p u (a, m)) e

  apart-Sees :
      (origin : p.Origin) (c e : Call p.trait) (s : State p)
      → entry c ≢ entry e
      → Sees p c s (dispatch p origin e s).1
  apart-Sees origin c e s h = elim (Result-cases (dispatch p origin e s).0) [
    | inl (done, k) ↦
        recorded-Sees c e s (dispatch p origin e s).1 h (dispatch-recorded p origin e s k)
    | inr (x, k) ↦ same-Sees c s (dispatch p origin e s).1 (dispatch-err p origin e s x k)
  ]

  -- The order of two calls on different entries does not matter, whoever signs them: each ends as
  -- it would without the other before it, and the ledger after both is the same.
  pub dispatch-commute :
      (origin other : p.Origin) (c e : Call p.trait) (s : State p)
      → entry c ≢ entry e
      → let first = (dispatch p origin c s).1 in
        let second = (dispatch p other e s).1 in
        ((dispatch p origin c second).0 ≡ (dispatch p origin c s).0)
        × ((dispatch p other e first).0 ≡ (dispatch p other e s).0)
        × (ledger_of p (dispatch p other e first).1 ≡ ledger_of p (dispatch p origin c second).1)
  dispatch-commute origin other c e s h =
      let first = (dispatch p origin c s).1 in
      let second = (dispatch p other e s).1 in
      let same = dispatch-Sees p origin c s second (apart-Sees other c e s h) in
      let same' = dispatch-Sees p other e s first (apart-Sees origin e c s (λ k. h (sym k))) in
      (
        same,
        same',
        dispatch-effect other e first
            ∙ ap (λ b. effect b e (ledger_of p first)) (ap succeeds same')
            ∙ ap (effect (succeeds (dispatch p other e s).0) e) (dispatch-effect origin c s)
            ∙ sym (effect-commute _ _ c e (ledger_of p s) h)
            ∙ sym (
                dispatch-effect origin c second
                ∙ ap (λ b. effect b c (ledger_of p second)) (ap succeeds same)
                ∙ ap (effect (succeeds (dispatch p origin c s).0) c) (dispatch-effect other e s)),
      )
