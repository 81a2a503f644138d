-- ===== src/Anchors/Refusals.antt =====
-- mod.rs: the errors in which the dispatchables end, against the ledger.
use substrate_scaffold.Prelude.{
  ◌≤◌, ◌<◌, ◌≡◌, ◌≢◌, ◌↔◌, ◌⊎◌, false, Option, none, some, length, arith,
}
use substrate_scaffold.Result.{ok, err}
use substrate_scaffold.Anchors.{
  Pallet, State, revoked, UnixTimeSeconds, Call, create_anchor_call, revoke_anchor_call,
  suspend_leaf_call, DispatchError, system, other, max_proof_size, is_member, dispatch,
}
use substrate_scaffold.Anchors.Ledger.{Ledger, ledger_of}

module _ (p : Pallet) (origin : p.Origin) where
  abbrev pub Failure : Type 0
  Failure = DispatchError p.SystemError

  -- The error of an origin that is not signed.
  abbrev pub IsUnsigned : Failure → Type 0
  IsUnsigned e = (x : p.SystemError) × (p.ensure_signed origin ≡ err x) × (e ≡ system x)

  -- The origin is signed, and what follows holds of the account.
  abbrev pub BySigner : (p.AccountId → Type 0) → Type 0
  BySigner holds = (who : p.AccountId) × (p.ensure_signed origin ≡ ok who) × holds who

  abbrev pub IsLater : Option UnixTimeSeconds → UnixTimeSeconds → Type 0
  IsLater none end = Unit
  IsLater (some old) end = old < end

  abbrev pub Refusal : Call p.trait → Ledger p → Failure → Type 0
  Refusal (create_anchor_call admins root) l e =
      IsUnsigned e
      ⊎ BySigner (λ who.
        (l.anchors (admins, root) ≢ none) × (e ≡ other "The root has already been anchored."))
  Refusal (revoke_anchor_call admins root proof) l e =
      IsUnsigned e
      ⊎ BySigner (λ who.
        ((max_proof_size < length proof) × (e ≡ other "proof too long"))
        ⊎ ((length proof ≤ max_proof_size)
            × (((l.anchors (admins, root) ≡ some revoked) × (e ≡ other "anchor already revoked"))
                ⊎ ((l.anchors (admins, root) ≢ some revoked)
                    × (is_member p.trait admins proof who ≡ false)
                    × (e ≡ other "invalid proof")))))
  Refusal (suspend_leaf_call admins leaf proof end) l e =
      IsUnsigned e
      ⊎ BySigner (λ who.
        ((max_proof_size < length proof) × (e ≡ other "proof too long"))
        ⊎ ((length proof ≤ max_proof_size)
            × (((¬ IsLater (l.suspensions (admins, leaf)) end)
                  × (e ≡ other "leaf is already suspended until specified time"))
                ⊎ (IsLater (l.suspensions (admins, leaf)) end
                    × (is_member p.trait admins proof who ≡ false)
                    × (e ≡ other "invalid proof")))))

  refused :
      (c : Call p.trait) (s : State p) (e : Failure)
      → (dispatch p origin c s).0 ≡ err e
      → Refusal c (ledger_of p s) e
  unfolding dispatch
  refused (create_anchor_call admins root) s e h =
      let stored = p.Anchors.exists-get s.anchors (admins, root) in ground (arith, h)
  refused (revoke_anchor_call admins root proof) s e h = ground (arith, h)
  refused (suspend_leaf_call admins leaf proof end) s e h = ground (arith, h)

  refuses :
      (c : Call p.trait) (s : State p) (e : Failure)
      → Refusal c (ledger_of p s) e
      → (dispatch p origin c s).0 ≡ err e
  unfolding dispatch
  refuses (create_anchor_call admins root) s e h =
      let stored = p.Anchors.exists-get s.anchors (admins, root) in ground (arith, h)
  refuses (revoke_anchor_call admins root proof) s e h = ground (arith, h)
  refuses (suspend_leaf_call admins leaf proof end) s e h = ground (arith, h)

  -- Each error says what is wrong, and of several reasons the first in the order of the checks: a
  -- call ends in an error exactly if it is the one that `Refusal` gives for the ledger.
  pub dispatch-Refusal :
      (c : Call p.trait) (s : State p) (e : Failure)
      → ((dispatch p origin c s).0 ≡ err e) ↔ Refusal c (ledger_of p s) e
  dispatch-Refusal c s e = (refused c s e, refuses c s e)
