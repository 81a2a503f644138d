-- ===== src/Anchors/Revocations.antt =====
-- mod.rs: how an anchor comes to be revoked.
use substrate_scaffold.Prelude.{
  ℕ, ◌≡◌, ◌≢◌, ◌⊎◌, inl, inr, refl, sym, ap, subst, ◌∙◌, Option, none, some, List, arith,
}
use substrate_scaffold.Merkle.{MerkleRoot, ProofElement}
use substrate_scaffold.Result.{ok, Result-cases}
use substrate_scaffold.Storage.{get-insert}
use substrate_scaffold.Anchors.{
  Pallet, State, AnchorKey, Revokable, not_revoked, revoked, Document, create_anchor_call,
  revoke_anchor_call, suspend_leaf_call, dispatch, lookup_anchor, revoke_anchor,
}
use substrate_scaffold.Anchors.Effects.{dispatch-err, anchor_key_discrete}
use substrate_scaffold.Anchors.Outcomes.{IsAuthorized, revoke_anchor-ok_iff}
use substrate_scaffold.Anchors.Lifecycle.{
  Step, Reach, call, new_block, here, Reach-trans, anchor_at,
}
use substrate_scaffold.Anchors.Turning.{Reach-Turn}

Revoked-cases : (a : Option (Revokable ℕ)) → (a ≡ some revoked) ⊎ (a ≢ some revoked)
Revoked-cases none = inr (λ e. cc)
Revoked-cases (some (not_revoked n)) = inr (λ e. cc)
Revoked-cases (some revoked) = inl refl

module _ (p : Pallet) (admins : MerkleRoot p.AccountId p.TreeHashOut) where
  -- A successful revocation on the way from `s` to `t`.
  pub record Revocation (root : MerkleRoot Document p.TreeHashOut) (s t : State p) : Type 0 where
    pub before : State p
    pub reached : Reach p s before
    pub origin : p.Origin
    pub proof : List (ProofElement p.TreeHashOut)
    pub succeeded : (revoke_anchor p origin admins root proof before).0 ≡ ok tt
    pub later : Reach p (revoke_anchor p origin admins root proof before).1 t
    pub authorized : IsAuthorized p origin admins proof

  Revocation-at :
      (root : MerkleRoot Document p.TreeHashOut) (origin : p.Origin)
      (proof : List (ProofElement p.TreeHashOut)) (s : State p)
      → (revoke_anchor p origin admins root proof s).0 ≡ ok tt
      → Revocation root s (revoke_anchor p origin admins root proof s).1
  Revocation-at root origin proof s k = record {
    before = s;
    reached = here;
    origin = origin;
    proof = proof;
    succeeded = k;
    later = here;
    authorized = ((revoke_anchor-ok_iff p origin admins root proof s).0 k).0;
  }

  Revocation-within :
      {s t u v : State p} (root : MerkleRoot Document p.TreeHashOut)
      → Reach p s t
      → Revocation root t u
      → Reach p u v
      → Revocation root s v
  Revocation-within root r w q = record {
    before = w.before;
    reached = Reach-trans p r w.reached;
    origin = w.origin;
    proof = w.proof;
    succeeded = w.succeeded;
    later = Reach-trans p w.later q;
    authorized = w.authorized;
  }

  Step-revoked :
      {s t : State p} (root : MerkleRoot Document p.TreeHashOut)
      → Step p s t
      → anchor_at p s (admins, root) ≢ some revoked
      → anchor_at p t (admins, root) ≡ some revoked
      → Revocation root s t
  unfolding dispatch lookup_anchor
  Step-revoked root (new_block s) h e = absurd (h (unfold lookup_anchor in e))
  Step-revoked root (call origin (create_anchor_call a r) s) h e = absurd (
      ground (
        arith,
        get-insert p.Anchors (anchor_key_discrete p.trait) s.anchors (a, r)
            (not_revoked s.block_number) (admins, root),
      ))
  Step-revoked root (call origin (suspend_leaf_call a l proof end) s) h e = absurd (ground arith)
  Step-revoked root (call origin (revoke_anchor_call a r proof) s) h e =
      elim (Result-cases (revoke_anchor p origin a r proof s).0) [
        | inl (done, k) ↦ elim (anchor_key_discrete p.trait (a, r) (admins, root)) [
          | yes q ↦
              let after = λ (z : AnchorKey p.trait). revoke_anchor p origin z.0 z.1 proof s in
              subst (λ z. Revocation root s (after z).1) (sym q)
                (Revocation-at root origin proof s (subst (λ z. (after z).0 ≡ ok tt) q k))
          | no q ↦
              absurd
                (ground (arith, p.Anchors.get-insert_ne s.anchors (a, r) (admins, root) revoked q))
        ]
        | inr (x, k) ↦ absurd (
            h (
              sym (
                ap (λ u. anchor_at p u (admins, root))
                  (dispatch-err p origin (revoke_anchor_call a r proof) s x k))
              ∙ e))
      ]

  -- An anchor that comes to be revoked, in whatever history, is revoked by a `revoke_anchor` of it
  -- on the way, which was signed by a member of its administrators and gave a proof of at most 16
  -- elements.
  pub revoked_by_authority :
      {s t : State p} (root : MerkleRoot Document p.TreeHashOut)
      → Reach p s t
      → lookup_anchor p s admins root ≢ some revoked
      → lookup_anchor p t admins root ≡ some revoked
      → Revocation root s t
  revoked_by_authority root r h e =
      let w =
        Reach-Turn p (λ u. lookup_anchor p u admins root ≡ some revoked)
          (λ u. Revoked-cases (lookup_anchor p u admins root)) r h e in
      Revocation-within root w.reached (Step-revoked root w.step w.not_yet w.now) w.later
