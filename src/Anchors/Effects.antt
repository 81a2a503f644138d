-- ===== src/Anchors/Effects.antt =====
-- mod.rs: what a call of the pallet changes in the two storage maps.
use mathlib.Core.Logic.{ite}
use substrate_scaffold.Prelude.{◌≡◌, ◌≢◌, ap, leb, List, eq_discrete, arith}
use substrate_scaffold.Hasher.{Hashed}
use substrate_scaffold.Merkle.{MerkleRoot, ProofElement}
use substrate_scaffold.Result.{ok, err}
use substrate_scaffold.Storage.{get-insert}
use substrate_scaffold.Anchors.{
  Trait, Pallet, State, not_revoked, revoked, Document, UnixTimeSeconds, DispatchError, AnchorKey,
  LeafKey, Call, create_anchor_call, revoke_anchor_call, suspend_leaf_call, suspend_leaf, dispatch,
  lookup_anchor, leaf_suspended_by,
}

unfoldable pub out_discrete : (t : Trait) → Discrete t.TreeHashOut
out_discrete t = eq_discrete t.eq_out

unfoldable pub anchor_key_discrete : (t : Trait) → Discrete (AnchorKey t)
anchor_key_discrete t = hlevel (out_discrete t)

unfoldable pub leaf_key_discrete : (t : Trait) → Discrete (LeafKey t)
leaf_key_discrete t = hlevel (out_discrete t)

module _ (p : Pallet) where
  -- A call that ends in an error leaves the state as it was.
  pub dispatch-err :
      (origin : p.Origin) (call : Call p.trait) (s : State p) (e : DispatchError p.SystemError)
      → (dispatch p origin call s).0 ≡ err e
      → (dispatch p origin call s).1 ≡ s
  unfolding dispatch
  dispatch-err origin (create_anchor_call admins root) s e h = ground arith
  dispatch-err origin (revoke_anchor_call admins root proof) s e h = ground arith
  dispatch-err origin (suspend_leaf_call admins leaf proof end) s e h = ground arith

  -- After a successful `suspend_leaf` its leaf is suspended up to and at the given time and not
  -- later; every other leaf is suspended when it was, and no anchor and no block number changes.
  pub suspend_leaf-leaf_suspended_by :
      (origin : p.Origin) (admins : MerkleRoot p.AccountId p.TreeHashOut)
      (leaf : Hashed Document p.TreeHashOut) (proof : List (ProofElement p.TreeHashOut))
      (end : UnixTimeSeconds) (s : State p) (k : LeafKey p.trait) (now : UnixTimeSeconds)
      → (suspend_leaf p origin admins leaf proof end s).0 ≡ ok tt
      → let after = (suspend_leaf p origin admins leaf proof end s).1 in
        (leaf_suspended_by p after k.0 k.1 now
          ≡ ite
              (leaf_key_discrete p.trait (admins, leaf) k)
              (leb now end)
              (leaf_suspended_by p s k.0 k.1 now))
        × (after.anchors ≡ s.anchors)
        × (after.block_number ≡ s.block_number)
  unfolding suspend_leaf leaf_suspended_by
  suspend_leaf-leaf_suspended_by origin admins leaf proof end s k now h = ground (
    arith,
    get-insert p.SuspendedLeaves (leaf_key_discrete p.trait) s.suspended_leaves (admins, leaf) end
        k,
  )

  -- The administrators that a call is scoped to.
  abbrev pub scope : Call p.trait → MerkleRoot p.AccountId p.TreeHashOut
  scope (create_anchor_call admins root) = admins
  scope (revoke_anchor_call admins root proof) = admins
  scope (suspend_leaf_call admins leaf proof end) = admins

  -- A call that names other administrators, whoever signs it, changes neither an anchor nor a
  -- suspension of `admins`, whether it succeeds or not.
  dispatch_scoped :
      (origin : p.Origin) (call : Call p.trait) (s : State p)
      (admins : MerkleRoot p.AccountId p.TreeHashOut) (root : MerkleRoot Document p.TreeHashOut)
      (leaf : Hashed Document p.TreeHashOut) (now : UnixTimeSeconds)
      → scope call ≢ admins
      → let after = (dispatch p origin call s).1 in
        (lookup_anchor p after admins root ≡ lookup_anchor p s admins root)
        × (leaf_suspended_by p after admins leaf now ≡ leaf_suspended_by p s admins leaf now)
  unfolding dispatch lookup_anchor leaf_suspended_by
  dispatch_scoped origin (create_anchor_call a r) s admins root leaf now h = ground (
    arith,
    p.Anchors.get-insert_ne s.anchors (a, r) (admins, root) (not_revoked s.block_number)
        (λ e. h (ap (λ k. k.0) e)),
  )
  dispatch_scoped origin (revoke_anchor_call a r proof) s admins root leaf now h = ground (
    arith,
    p.Anchors.get-insert_ne s.anchors (a, r) (admins, root) revoked (λ e. h (ap (λ k. k.0) e)),
  )
  dispatch_scoped origin (suspend_leaf_call a l proof end) s admins root leaf now h = ground (
    arith,
    p.SuspendedLeaves.get-insert_ne s.suspended_leaves (a, l) (admins, leaf) end
        (λ e. h (ap (λ k. k.0) e)),
  )
