-- ===== src/Anchors/View.antt =====
-- mod.rs: the storage as it can be seen, a quotient of the states by the queries.
use mathlib.Core.Quot
use mathlib.Core.Quot.{Quot, Quot-set}
use native.Mathlib.Decide.{ℕ_discrete}
use native.Mathlib.Nat.{ℕ_set}
use substrate_scaffold.Prelude.{ℕ, ◌≡◌, ◌≢◌, sym, Option}
use substrate_scaffold.Anchors.{Pallet, Revokable, Call}
use substrate_scaffold.Anchors.Ledger.{Ledger, ledger_of}
use substrate_scaffold.Anchors.Commute.{entry, dispatch-commute}
use substrate_scaffold.Anchors.Observation.{
  Alike, Alike-ledger_of, ledger_of-Alike, Move, make, moved, moved-ledger,
}

Revokable_set : IsSet (Option (Revokable ℕ))
Revokable_set = hlevel ℕ_discrete

module _ (p : Pallet) where
  abbrev pub View : Type 0
  View = Quot (Alike p)

  pub Ledger_set : IsSet (Ledger p)
  Ledger_set = hlevel (Revokable_set, ℕ_set)

  -- What a view holds.
  unfoldable pub ledger_view : View → Ledger p
  ledger_view = Quot.lift Ledger_set (ledger_of p) (Alike-ledger_of p)

  -- What a call, or a new block, makes of a view.
  unfoldable pub after : Move p → View → View
  after m =
      Quot.lift Quot-set (λ s. Quot.mk (moved p m s))
        (λ s t a.
          Quot.sound (ledger_of-Alike p _ _ (moved-ledger p m s t (Alike-ledger_of p s t a))))

  -- As far as can be seen, two calls on different entries can be swapped, whoever signs them.
  pub after-commute :
      (origin other : p.Origin) (c e : Call p.trait) (v : View)
      → entry p c ≢ entry p e
      → after (make origin c) (after (make other e) v)
        ≡ after (make other e) (after (make origin c) v)
  unfolding after
  after-commute origin other c e v h =
      Quot.ind
        (λ w.
          Quot-set (after (make origin c) (after (make other e) w))
            (after (make other e) (after (make origin c) w)))
        (λ s. Quot.sound (ledger_of-Alike p _ _ (sym (dispatch-commute p origin other c e s h).2)))
        v
