-- ===== src/Anchors/Observation.antt =====
-- mod.rs: what can be seen of the storage. The queries are `lookup_anchor`, `leaf_suspended_by` at
-- any time, and the number of the block; how the maps are stored shows in none of them.
use substrate_scaffold.Prelude.{
  suc, ◌≡◌, ◌↔◌, refl, sym, ap, ◌∙◌, Option, none, some, List, [], ◌∷◌, arith,
}
use substrate_scaffold.Merkle.{MerkleRoot}
use substrate_scaffold.Hasher.{Hashed}
use substrate_scaffold.Result.{Result}
use substrate_scaffold.Anchors.{
  suspend_leaf_call, revoke_anchor_call, create_anchor_call, DispatchError, Pallet, State, Document,
  UnixTimeSeconds, Call, dispatch, lookup_anchor, suspended_at, leaf_suspended_by,
}
use substrate_scaffold.Anchors.Independence.{Sees, dispatch-Sees}
use substrate_scaffold.Anchors.Ledger.{Ledger, ledger_of, Ledger-ext}
use substrate_scaffold.Anchors.Commute.{succeeds, effect, dispatch-effect}

module _ (p : Pallet) where
  -- The times at which a suspension is active give its end, and whether there is one.
  suspended_at-injective :
      (a b : Option UnixTimeSeconds)
      → ((now : UnixTimeSeconds) → suspended_at p a now ≡ suspended_at p b now)
      → a ≡ b
  unfolding suspended_at
  suspended_at-injective none none h = refl
  suspended_at-injective none (some n) h = absurd (ground (arith, h n))
  suspended_at-injective (some m) none h = absurd (ground (arith, h m))
  suspended_at-injective (some m) (some n) h = ground (arith, h m, h n)

  -- No query tells the two states apart.
  pub record Alike (s t : State p) : Type 0 where
    pub same_anchors :
        (admins : MerkleRoot p.AccountId p.TreeHashOut) (root : MerkleRoot Document p.TreeHashOut)
        → lookup_anchor p s admins root ≡ lookup_anchor p t admins root
    pub same_suspensions :
        (admins : MerkleRoot p.AccountId p.TreeHashOut) (leaf : Hashed Document p.TreeHashOut)
        (now : UnixTimeSeconds)
        → leaf_suspended_by p s admins leaf now ≡ leaf_suspended_by p t admins leaf now
    pub same_block : s.block_number ≡ t.block_number

  pub Alike-ledger_of : (s t : State p) → Alike s t → ledger_of p s ≡ ledger_of p t
  unfolding lookup_anchor leaf_suspended_by
  Alike-ledger_of s t a =
      Ledger-ext p (λ (admins, root). a.same_anchors admins root)
        (λ (admins, leaf). suspended_at-injective _ _ (a.same_suspensions admins leaf)) a.same_block

  pub ledger_of-Alike : (s t : State p) → ledger_of p s ≡ ledger_of p t → Alike s t
  unfolding lookup_anchor leaf_suspended_by
  ledger_of-Alike s t e = record {
    same_anchors = λ admins root. ap (λ l. l.anchors (admins, root)) e;
    same_suspensions =
        λ admins leaf now. ap (λ l. suspended_at p (l.suspensions (admins, leaf)) now) e;
    same_block = ap (λ l. l.number) e;
  }

  -- The queries give the whole ledger: no query tells two states apart exactly if they hold the same
  -- ledger.
  Alike-iff_ledger : (s t : State p) → Alike s t ↔ (ledger_of p s ≡ ledger_of p t)
  Alike-iff_ledger s t = (Alike-ledger_of s t, ledger_of-Alike s t)

  -- A call, or a new block.
  pub data Move : Type 0 where
    make : p.Origin → Call p.trait → Move
    seal : Move

  abbrev pub moved : Move → State p → State p
  moved (make origin c) s = (dispatch p origin c s).1
  moved seal s = record s { block_number = suc s.block_number }

  -- How the calls of a history end, one after the other.
  abbrev pub outcomes : List Move → State p → List (Result (DispatchError p.SystemError) (Unit {0}))
  outcomes [] s = []
  outcomes (make origin c ∷ moves) s = let (r, t) = dispatch p origin c s in r ∷ outcomes moves t
  outcomes (seal ∷ moves) s = outcomes moves (moved seal s)

  Alike-Sees : (c : Call p.trait) (s t : State p) → ledger_of p s ≡ ledger_of p t → Sees p c s t
  unfolding lookup_anchor
  Alike-Sees (create_anchor_call a r) s t e = ap (λ l. l.anchors (a, r)) (sym e)
  Alike-Sees (revoke_anchor_call a r proof) s t e = ap (λ l. l.anchors (a, r)) (sym e)
  Alike-Sees (suspend_leaf_call a m proof end) s t e = ap (λ l. l.suspensions (a, m)) (sym e)

  dispatch-ledger :
      (origin : p.Origin) (c : Call p.trait) (s t : State p)
      → ledger_of p s ≡ ledger_of p t
      → ((dispatch p origin c s).0 ≡ (dispatch p origin c t).0)
        × (ledger_of p (dispatch p origin c s).1 ≡ ledger_of p (dispatch p origin c t).1)
  dispatch-ledger origin c s t e =
      let same = sym (dispatch-Sees p origin c s t (Alike-Sees c s t e)) in
      (
        same,
        dispatch-effect p origin c s
            ∙ ap (λ r. effect p (succeeds p r) c (ledger_of p s)) same
            ∙ ap (effect p (succeeds p (dispatch p origin c t).0) c) e
            ∙ sym (dispatch-effect p origin c t),
      )

  pub moved-ledger :
      (m : Move) (s t : State p)
      → ledger_of p s ≡ ledger_of p t
      → ledger_of p (moved m s) ≡ ledger_of p (moved m t)
  moved-ledger (make origin c) s t e = (dispatch-ledger origin c s t e).1
  moved-ledger seal s t e =
      ap {A = Ledger p} {B = Ledger p} (λ l. record l { number = suc l.number }) e

  outcomes-ledger :
      (moves : List Move) (s t : State p)
      → ledger_of p s ≡ ledger_of p t
      → outcomes moves s ≡ outcomes moves t
  outcomes-ledger [] s t e = refl
  outcomes-ledger (make origin c ∷ moves) s t e =
      let (same, left) = dispatch-ledger origin c s t e in
      λ i. same i ∷ outcomes-ledger moves (dispatch p origin c s).1 (dispatch p origin c t).1 left i
  outcomes-ledger (seal ∷ moves) s t e =
      outcomes-ledger moves (moved seal s) (moved seal t) (moved-ledger seal s t e)

  -- Two states that no query tells apart are not told apart by any history either: all calls, by
  -- anyone and with new blocks between them, end in the same way, success or the same error.
  pub outcomes-Alike :
      (moves : List Move) (s t : State p) → Alike s t → outcomes moves s ≡ outcomes moves t
  outcomes-Alike moves s t a = outcomes-ledger moves s t (Alike-ledger_of s t a)
