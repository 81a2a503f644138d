-- ===== src/Anchors/Outcomes.antt =====
-- mod.rs: when each dispatchable succeeds, and with which error it ends otherwise.
use substrate_scaffold.Prelude.{
  ◌≤◌, ◌<◌, ◌≡◌, ◌≢◌, ◌↔◌, ◌⊎◌, inl, inr, true, none, some, List, length, Option-cases, arith,
}
use substrate_scaffold.Hasher.{Hashed}
use substrate_scaffold.Merkle.{MerkleRoot, ProofElement}
use substrate_scaffold.Result.{ok}
use substrate_scaffold.Anchors.{
  Pallet, State, revoked, Document, UnixTimeSeconds, is_member, max_proof_size, create_anchor,
  revoke_anchor, suspend_leaf, lookup_anchor,
}

module _ (p : Pallet) (origin : p.Origin) (admins : MerkleRoot p.AccountId p.TreeHashOut) where
  -- A member of `admins` signed, with a proof of an allowed length.
  pub record IsAuthorized (proof : List (ProofElement p.TreeHashOut)) : Type 0 where
    pub who : p.AccountId
    pub signed_by : p.ensure_signed origin ≡ ok who
    pub is_short : length proof ≤ max_proof_size
    pub member : is_member p.trait admins proof who ≡ true

  -- `create_anchor` succeeds exactly if the origin is signed and nothing is stored for the key.
  pub create_anchor-ok_iff :
      (root : MerkleRoot Document p.TreeHashOut) (s : State p)
      → ((create_anchor p origin admins root s).0 ≡ ok tt) ↔ (
          ((who : p.AccountId) × (p.ensure_signed origin ≡ ok who))
          × (lookup_anchor p s admins root ≡ none))
  unfolding create_anchor lookup_anchor
  create_anchor-ok_iff root s =
      let e = p.Anchors.exists-get s.anchors (admins, root) in (ground arith, ground arith)

  -- `revoke_anchor` succeeds exactly if the call is authorized, by the signature of a member of
  -- `admins` and a proof of at most 16 elements, and the anchor is not revoked, posted or not.
  pub revoke_anchor-ok_iff :
      (root : MerkleRoot Document p.TreeHashOut) (proof : List (ProofElement p.TreeHashOut))
      (s : State p)
      → ((revoke_anchor p origin admins root proof s).0 ≡ ok tt)
        ↔ (IsAuthorized proof × (lookup_anchor p s admins root ≢ some revoked))
  unfolding revoke_anchor lookup_anchor
  revoke_anchor-ok_iff root proof s = (ground arith, ground arith)

  -- `suspend_leaf` succeeds exactly if the call is authorized, by the signature of a member of
  -- `admins` and a proof of at most 16 elements, and the leaf has no suspension that ends at the
  -- given time or later.
  pub suspend_leaf-ok_iff :
      (leaf : Hashed Document p.TreeHashOut) (proof : List (ProofElement p.TreeHashOut))
      (suspend_end : UnixTimeSeconds) (s : State p)
      → let stored = p.SuspendedLeaves.get s.suspended_leaves (admins, leaf) in
        ((suspend_leaf p origin admins leaf proof suspend_end s).0 ≡ ok tt) ↔ (
          IsAuthorized proof
          × ((stored ≡ none)
              ⊎ ((end : UnixTimeSeconds) × (stored ≡ some end) × (end < suspend_end))))
  unfolding suspend_leaf
  suspend_leaf-ok_iff leaf proof suspend_end s =
      elim (Option-cases (p.SuspendedLeaves.get s.suspended_leaves (admins, leaf))) [
        | inl e ↦ (λ h. (ground arith, inl e), λ h. ground arith)
        | inr (end, e) ↦ (λ h. (ground arith, inr (end, e, ground arith)), λ (a, b). ground arith)
      ]
