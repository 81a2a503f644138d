-- ===== src/Anchors/Ledger.antt =====
-- mod.rs: the pallet's contract, as a ledger. It has two maps as functions and the block number,
-- and says for each call when it is permitted and what it records; a call that is not permitted
-- leaves no trace.
use mathlib.Core.Logic.{ite}
use substrate_scaffold.Prelude.{
  ℕ, suc, ◌<◌, ◌≡◌, ◌≢◌, ◌⊎◌, ◌↔◌, inl, inr, refl, sym, ap, subst, ◌∙◌, Option, none, some, arith,
}
use substrate_scaffold.Result.{ok, Result-cases}
use substrate_scaffold.Storage.{get-insert}
use substrate_scaffold.Anchors.{
  Pallet, State, Revokable, not_revoked, revoked, UnixTimeSeconds, AnchorKey, LeafKey, Call,
  create_anchor_call, revoke_anchor_call, suspend_leaf_call, dispatch, lookup_anchor,
}
use substrate_scaffold.Anchors.Effects.{anchor_key_discrete, leaf_key_discrete, dispatch-err}
use substrate_scaffold.Anchors.Outcomes.{
  IsAuthorized, create_anchor-ok_iff, revoke_anchor-ok_iff, suspend_leaf-ok_iff,
}
use substrate_scaffold.Anchors.Lifecycle.{Reach, call, new_block, here, next}

module _ (p : Pallet) where
  pub record Ledger : Type 0 where
    pub anchors : AnchorKey p.trait → Option (Revokable ℕ)
    pub suspensions : LeafKey p.trait → Option UnixTimeSeconds
    pub number : ℕ

  -- What a state holds, without how its maps are stored.
  abbrev pub ledger_of : State p → Ledger
  ledger_of s = record {
    anchors = λ k. p.Anchors.get s.anchors k;
    suspensions = λ k. p.SuspendedLeaves.get s.suspended_leaves k;
    number = s.block_number;
  }

  -- When a call is permitted.
  abbrev pub IsPermitted : p.Origin → Call p.trait → Ledger → Type 0
  IsPermitted origin (create_anchor_call admins root) l =
      ((who : p.AccountId) × (p.ensure_signed origin ≡ ok who)) × (l.anchors (admins, root) ≡ none)
  IsPermitted origin (revoke_anchor_call admins root proof) l =
      IsAuthorized p origin admins proof × (l.anchors (admins, root) ≢ some revoked)
  IsPermitted origin (suspend_leaf_call admins leaf proof end) l =
      IsAuthorized p origin admins proof
      × ((l.suspensions (admins, leaf) ≡ none)
          ⊎ ((old : UnixTimeSeconds) × (l.suspensions (admins, leaf) ≡ some old) × (old < end)))

  -- What a permitted call makes of the ledger.
  abbrev pub recorded : Call p.trait → Ledger → Ledger
  recorded (create_anchor_call admins root) l = record l {
    anchors = λ k.
        ite (anchor_key_discrete p.trait (admins, root) k) (some (not_revoked l.number))
          (l.anchors k);
  }
  recorded (revoke_anchor_call admins root proof) l = record l {
    anchors = λ k. ite (anchor_key_discrete p.trait (admins, root) k) (some revoked) (l.anchors k);
  }
  recorded (suspend_leaf_call admins leaf proof end) l = record l {
    suspensions =
        λ k. ite (leaf_key_discrete p.trait (admins, leaf) k) (some end) (l.suspensions k);
  }

  pub data History (l : Ledger) : Ledger → Type 0 where
    begin : History l l
    act :
        {m : Ledger}
        → History l m
        → (origin : p.Origin) (c : Call p.trait) → IsPermitted origin c m
        → History l (recorded c m)
    tick : {m : Ledger} → History l m → History l (record m { number = suc m.number })

  pub Ledger-ext :
      {l m : Ledger}
      → ((k : AnchorKey p.trait) → l.anchors k ≡ m.anchors k)
      → ((k : LeafKey p.trait) → l.suspensions k ≡ m.suspensions k)
      → l.number ≡ m.number
      → l ≡ m
  Ledger-ext a b n = λ i. record { anchors = λ k. a k i; suspensions = λ k. b k i; number = n i }

  pub dispatch-recorded :
      (origin : p.Origin) (c : Call p.trait) (s : State p)
      → (dispatch p origin c s).0 ≡ ok tt
      → ledger_of (dispatch p origin c s).1 ≡ recorded c (ledger_of s)
  unfolding dispatch
  dispatch-recorded origin (create_anchor_call admins root) s h =
      Ledger-ext
        (λ k. ground (
          arith,
          get-insert p.Anchors (anchor_key_discrete p.trait) s.anchors (admins, root)
              (not_revoked s.block_number) k,
        ))
        (λ k. ground arith) (ground arith)
  dispatch-recorded origin (revoke_anchor_call admins root proof) s h =
      Ledger-ext
        (λ k. ground (
          arith,
          get-insert p.Anchors (anchor_key_discrete p.trait) s.anchors (admins, root) revoked k,
        ))
        (λ k. ground arith) (ground arith)
  dispatch-recorded origin (suspend_leaf_call admins leaf proof end) s h =
      Ledger-ext (λ k. ground arith)
        (λ k. ground (
          arith,
          get-insert p.SuspendedLeaves (leaf_key_discrete p.trait) s.suspended_leaves (admins, leaf)
              end k,
        ))
        (ground arith)

  dispatch-IsPermitted :
      (origin : p.Origin) (c : Call p.trait) (s : State p)
      → ((dispatch p origin c s).0 ≡ ok tt) ↔ IsPermitted origin c (ledger_of s)
  unfolding dispatch lookup_anchor
  dispatch-IsPermitted origin (create_anchor_call admins root) s =
      create_anchor-ok_iff p origin admins root s
  dispatch-IsPermitted origin (revoke_anchor_call admins root proof) s =
      revoke_anchor-ok_iff p origin admins root proof s
  dispatch-IsPermitted origin (suspend_leaf_call admins leaf proof end) s =
      suspend_leaf-ok_iff p origin admins leaf proof end s

  -- The pallet implements the ledger, call by call: a permitted call succeeds and leaves what the
  -- ledger records of it, and any other call ends in an error and leaves the state as it was.
  pub dispatch-Ledger :
      (origin : p.Origin) (c : Call p.trait) (s : State p)
      → (IsPermitted origin c (ledger_of s)
          × ((dispatch p origin c s).0 ≡ ok tt)
          × (ledger_of (dispatch p origin c s).1 ≡ recorded c (ledger_of s)))
        ⊎ ((¬ IsPermitted origin c (ledger_of s))
            × ((dispatch p origin c s).0 ≢ ok tt)
            × ((dispatch p origin c s).1 ≡ s))
  dispatch-Ledger origin c s = elim (Result-cases (dispatch p origin c s).0) [
    | inl (done, e) ↦ inl ((dispatch-IsPermitted origin c s).0 e, e, dispatch-recorded origin c s e)
    | inr (x, e) ↦ inr (
      λ h. cc ((dispatch-IsPermitted origin c s).1 h, e),
      λ h. cc (h, e),
      dispatch-err p origin c s x e,
    )
  ]

  Reach-History : {s t : State p} → Reach p s t → History (ledger_of s) (ledger_of t)
  Reach-History here = begin
  Reach-History (next r (new_block t)) = tick (Reach-History r)
  Reach-History {s} (next r (call origin c t)) = elim (dispatch-Ledger origin c t) [
    | inl (h, e, q) ↦ subst (History (ledger_of s)) (sym q) (act (Reach-History r) origin c h)
    | inr (h, e, q) ↦ subst (λ u. History (ledger_of s) (ledger_of u)) (sym q) (Reach-History r)
  ]

  History-Reach :
      (s : State p) {m : Ledger}
      → History (ledger_of s) m
      → (t : State p) × Reach p s t × (ledger_of t ≡ m)
  History-Reach s begin = (s, here, refl)
  History-Reach s (tick h) =
      let (t, r, e) = History-Reach s h in
      (
        record t { block_number = suc t.block_number },
        next r (new_block t),
        ap {A = Ledger} {B = Ledger} (λ l. record l { number = suc l.number }) e,
      )
  History-Reach s (act {m} h origin c permitted) =
      let (t, r, e) = History-Reach s h in
      let done =
        (dispatch-IsPermitted origin c t).1 (subst (IsPermitted origin c) (sym e) permitted) in
      (
        (dispatch p origin c t).1,
        next r (call origin c t),
        dispatch-recorded origin c t done ∙ ap (recorded c) e,
      )

  -- The histories of the pallet's states are those of the ledger: from a state, a ledger is reached
  -- by permitted calls and new blocks exactly if it is what some state holds that the chain reaches
  -- by calls of any kind and new blocks.
  pub History-iff_Reach :
      (s : State p) (m : Ledger)
      → History (ledger_of s) m ↔ ((t : State p) × Reach p s t × (ledger_of t ≡ m))
  History-iff_Reach s m =
      (λ h. History-Reach s h, λ (t, r, e). subst (History (ledger_of s)) e (Reach-History r))
