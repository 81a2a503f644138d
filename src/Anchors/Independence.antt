-- ===== src/Anchors/Independence.antt =====
-- mod.rs: what a call depends on. Anchors and suspensions are scoped to administrators, which is
-- to keep others from running ahead of a call.
use substrate_scaffold.Prelude.{ap, suc, ◌≡◌, ◌≢◌, refl, ◌∙◌, arith}
use substrate_scaffold.Merkle.{MerkleRoot}
use substrate_scaffold.Anchors.{
  Pallet, State, not_revoked, revoked, Document, Call, create_anchor_call, revoke_anchor_call,
  suspend_leaf_call, dispatch, lookup_anchor,
}
use substrate_scaffold.Anchors.Effects.{scope}
use substrate_scaffold.Anchors.Lifecycle.{anchor_at, suspension_at}
use substrate_scaffold.Hasher.{Hashed}

module _ (p : Pallet) (admins : MerkleRoot p.AccountId p.TreeHashOut) where
  -- Calls that name other administrators than `admins`, by any origins, and new blocks.
  pub data Elsewhere (s : State p) : State p → Type 0 where
    nothing : Elsewhere s s
    then_call :
        {t : State p}
        → Elsewhere s t
        → (origin : p.Origin) (c : Call p.trait) → scope p c ≢ admins
        → Elsewhere s (dispatch p origin c t).1
    then_block :
        {t : State p} → Elsewhere s t → Elsewhere s (record t { block_number = suc t.block_number })

  -- Two states that hold the same under `admins`.
  pub record Agree (s t : State p) : Type 0 where
    pub anchors_agree :
        (root : MerkleRoot Document p.TreeHashOut)
        → anchor_at p t (admins, root) ≡ anchor_at p s (admins, root)
    pub leaves_agree :
        (leaf : Hashed Document p.TreeHashOut)
        → suspension_at p t (admins, leaf) ≡ suspension_at p s (admins, leaf)

  dispatch-Agree :
      (origin : p.Origin) (c : Call p.trait) (s : State p)
      → scope p c ≢ admins
      → Agree s (dispatch p origin c s).1
  unfolding dispatch lookup_anchor
  dispatch-Agree origin (create_anchor_call a r) s h = record {
    anchors_agree = λ root. ground (
      arith,
      p.Anchors.get-insert_ne s.anchors (a, r) (admins, root) (not_revoked s.block_number)
          (λ e. h (ap (λ k. k.0) e)),
    );
    leaves_agree = λ leaf. ground arith;
  }
  dispatch-Agree origin (revoke_anchor_call a r proof) s h = record {
    anchors_agree = λ root. ground (
      arith,
      p.Anchors.get-insert_ne s.anchors (a, r) (admins, root) revoked (λ e. h (ap (λ k. k.0) e)),
    );
    leaves_agree = λ leaf. ground arith;
  }
  dispatch-Agree origin (suspend_leaf_call a l proof end) s h = record {
    anchors_agree = λ root. ground arith;
    leaves_agree = λ leaf. ground (
      arith,
      p.SuspendedLeaves.get-insert_ne s.suspended_leaves (a, l) (admins, leaf) end
          (λ e. h (ap (λ k. k.0) e)),
    );
  }

  Elsewhere-Agree : {s t : State p} → Elsewhere s t → Agree s t
  unfolding lookup_anchor
  Elsewhere-Agree nothing = record { anchors_agree = λ root. refl; leaves_agree = λ leaf. refl }
  Elsewhere-Agree (then_block r) =
      let a = Elsewhere-Agree r in
      record { anchors_agree = a.anchors_agree; leaves_agree = a.leaves_agree }
  Elsewhere-Agree (then_call {t} r origin c h) =
      let a = Elsewhere-Agree r in
      let b = dispatch-Agree origin c t h in
      record {
        anchors_agree = λ root. b.anchors_agree root ∙ a.anchors_agree root;
        leaves_agree = λ leaf. b.leaves_agree leaf ∙ a.leaves_agree leaf;
      }

module _ (p : Pallet) where
  -- Two states hold the same where a call looks.
  abbrev pub Sees : Call p.trait → State p → State p → Type 0
  Sees (create_anchor_call admins root) s t =
      anchor_at p t (admins, root) ≡ anchor_at p s (admins, root)
  Sees (revoke_anchor_call admins root proof) s t =
      anchor_at p t (admins, root) ≡ anchor_at p s (admins, root)
  Sees (suspend_leaf_call admins leaf proof end) s t =
      suspension_at p t (admins, leaf) ≡ suspension_at p s (admins, leaf)

  pub dispatch-Sees :
      (origin : p.Origin) (c : Call p.trait) (s t : State p)
      → Sees c s t
      → (dispatch p origin c t).0 ≡ (dispatch p origin c s).0
  unfolding dispatch lookup_anchor
  dispatch-Sees origin (create_anchor_call admins root) s t e = ground (
    arith,
    p.Anchors.exists-get s.anchors (admins, root),
    p.Anchors.exists-get t.anchors (admins, root),
  )
  dispatch-Sees origin (revoke_anchor_call admins root proof) s t e = ground arith
  dispatch-Sees origin (suspend_leaf_call admins leaf proof end) s t e = ground arith

  Agree-Sees : (c : Call p.trait) {s t : State p} → Agree p (scope p c) s t → Sees c s t
  Agree-Sees (create_anchor_call admins root) a = a.anchors_agree root
  Agree-Sees (revoke_anchor_call admins root proof) a = a.anchors_agree root
  Agree-Sees (suspend_leaf_call admins leaf proof end) a = a.leaves_agree leaf

  -- No frontrunning: a call has the outcome that it has now, success or the same error, after any
  -- number of calls by anyone that name other administrators, and of new blocks.
  pub dispatch-Elsewhere :
      (origin : p.Origin) (c : Call p.trait) {s t : State p}
      → Elsewhere p (scope p c) s t
      → (dispatch p origin c t).0 ≡ (dispatch p origin c s).0
  dispatch-Elsewhere origin c {s} {t} r =
      dispatch-Sees origin c s t (Agree-Sees c (Elsewhere-Agree p (scope p c) r))
