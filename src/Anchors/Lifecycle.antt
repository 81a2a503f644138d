-- ===== src/Anchors/Lifecycle.antt =====
-- mod.rs: the chain as a step relation, calls in any order from any origin and new blocks; what
-- the pallet's storage can do over time.
use substrate_scaffold.Prelude.{ℕ, suc, ◌≤◌, ◌≡◌, ◌⊎◌, inl, inr, refl, Option, none, some, arith}
use substrate_scaffold.Storage.{get-insert}
use substrate_scaffold.Anchors.{
  Pallet, State, Revokable, not_revoked, revoked, UnixTimeSeconds, AnchorKey, LeafKey, Call,
  create_anchor_call, revoke_anchor_call, suspend_leaf_call, dispatch, lookup_anchor,
}
use substrate_scaffold.Anchors.Effects.{anchor_key_discrete, leaf_key_discrete}

-- What a stored anchor may become: nothing is forgotten, a posted one keeps its block number
-- until it is revoked, and a revoked one stays so.
abbrev pub MayBecome : Option (Revokable ℕ) → Option (Revokable ℕ) → Type 0
MayBecome none b = Unit
MayBecome (some (not_revoked n)) b = (b ≡ some (not_revoked n)) ⊎ (b ≡ some revoked)
MayBecome (some revoked) b = b ≡ some revoked

-- A suspension is never taken back, and its end never comes earlier.
abbrev pub MayExtend : Option UnixTimeSeconds → Option UnixTimeSeconds → Type 0
MayExtend none b = Unit
MayExtend (some end) b = (end' : UnixTimeSeconds) × (b ≡ some end') × (end ≤ end')

pub MayBecome-refl : (a : Option (Revokable ℕ)) → MayBecome a a
MayBecome-refl none = tt
MayBecome-refl (some (not_revoked n)) = inl refl
MayBecome-refl (some revoked) = refl

pub MayBecome-trans : (a b c : Option (Revokable ℕ)) → MayBecome a b → MayBecome b c → MayBecome a c
MayBecome-trans none b c p q = tt
MayBecome-trans (some (not_revoked n)) none c p q = ground arith
MayBecome-trans (some (not_revoked n)) (some (not_revoked m)) c p q = ground arith
MayBecome-trans (some (not_revoked n)) (some revoked) c p q = inr q
MayBecome-trans (some revoked) none c p q = cc
MayBecome-trans (some revoked) (some (not_revoked m)) c p q = cc
MayBecome-trans (some revoked) (some revoked) c p q = q

pub MayExtend-refl : (a : Option UnixTimeSeconds) → MayExtend a a
MayExtend-refl none = tt
MayExtend-refl (some end) = (end, refl, omega arith)

pub MayExtend-trans :
    (a b c : Option UnixTimeSeconds) → MayExtend a b → MayExtend b c → MayExtend a c
MayExtend-trans none b c p q = tt
MayExtend-trans (some end) none c p q = cc (p.1)
MayExtend-trans (some end) (some mid) c p q = (q.0, q.1, ground arith)

module _ (p : Pallet) where
  -- One step of the chain. The system counts the blocks.
  pub data Step : State p → State p → Type 0 where
    call : (origin : p.Origin) (c : Call p.trait) (s : State p) → Step s (dispatch p origin c s).1
    new_block : (s : State p) → Step s (record s { block_number = suc s.block_number })

  pub data Reach (s : State p) : State p → Type 0 where
    here : Reach s s
    next : {t u : State p} → Reach s t → Step t u → Reach s u

  pub Reach-trans : {s t u : State p} → Reach s t → Reach t u → Reach s u
  Reach-trans r here = r
  Reach-trans r (next q st) = next (Reach-trans r q) st

  abbrev pub anchor_at : State p → AnchorKey p.trait → Option (Revokable ℕ)
  anchor_at s k = lookup_anchor p s k.0 k.1

  abbrev pub suspension_at : State p → LeafKey p.trait → Option UnixTimeSeconds
  suspension_at s k = p.SuspendedLeaves.get s.suspended_leaves k

  dispatch-MayBecome :
      (origin : p.Origin) (c : Call p.trait) (s : State p) (k : AnchorKey p.trait)
      → MayBecome (anchor_at s k) (anchor_at (dispatch p origin c s).1 k)
  unfolding dispatch lookup_anchor
  dispatch-MayBecome origin (create_anchor_call admins root) s k = ground (
    arith,
    get-insert p.Anchors (anchor_key_discrete p.trait) s.anchors (admins, root)
        (not_revoked s.block_number) k,
    p.Anchors.exists-get s.anchors (admins, root),
    MayBecome-refl (p.Anchors.get s.anchors k),
  )
  dispatch-MayBecome origin (revoke_anchor_call admins root proof) s k = ground (
    arith,
    get-insert p.Anchors (anchor_key_discrete p.trait) s.anchors (admins, root) revoked k,
    MayBecome-refl (p.Anchors.get s.anchors k),
  )
  dispatch-MayBecome origin (suspend_leaf_call admins leaf proof end) s k =
      ground (arith, MayBecome-refl (p.Anchors.get s.anchors k))

  dispatch-MayExtend :
      (origin : p.Origin) (c : Call p.trait) (s : State p) (k : LeafKey p.trait)
      → MayExtend (suspension_at s k) (suspension_at (dispatch p origin c s).1 k)
  unfolding dispatch
  dispatch-MayExtend origin (suspend_leaf_call admins leaf proof end) s k = ground (
    arith,
    get-insert p.SuspendedLeaves (leaf_key_discrete p.trait) s.suspended_leaves (admins, leaf) end
        k,
    MayExtend-refl (p.SuspendedLeaves.get s.suspended_leaves k),
  )
  dispatch-MayExtend origin (create_anchor_call admins root) s k =
      ground (arith, MayExtend-refl (p.SuspendedLeaves.get s.suspended_leaves k))
  dispatch-MayExtend origin (revoke_anchor_call admins root proof) s k =
      ground (arith, MayExtend-refl (p.SuspendedLeaves.get s.suspended_leaves k))

  Step-MayBecome :
      {s t : State p} (k : AnchorKey p.trait) → Step s t → MayBecome (anchor_at s k) (anchor_at t k)
  unfolding lookup_anchor
  Step-MayBecome k (call origin c s) = dispatch-MayBecome origin c s k
  Step-MayBecome k (new_block s) = MayBecome-refl (anchor_at s k)

  Step-MayExtend :
      {s t : State p} (k : LeafKey p.trait)
      → Step s t
      → MayExtend (suspension_at s k) (suspension_at t k)
  Step-MayExtend k (call origin c s) = dispatch-MayExtend origin c s k
  Step-MayExtend k (new_block s) = MayExtend-refl (suspension_at s k)

  -- Over any history an anchor that is posted keeps its block number until it is revoked, and a
  -- revoked one stays revoked.
  pub Reach-MayBecome :
      {s t : State p} (k : AnchorKey p.trait)
      → Reach s t
      → MayBecome (anchor_at s k) (anchor_at t k)
  Reach-MayBecome {s} k here = MayBecome-refl (anchor_at s k)
  Reach-MayBecome {s} k (next {t} {u} r st) =
      MayBecome-trans (anchor_at s k) (anchor_at t k) (anchor_at u k) (Reach-MayBecome k r)
        (Step-MayBecome k st)

  -- Over any history a suspension stays and its end does not come earlier.
  pub Reach-MayExtend :
      {s t : State p} (k : LeafKey p.trait)
      → Reach s t
      → MayExtend (suspension_at s k) (suspension_at t k)
  Reach-MayExtend {s} k here = MayExtend-refl (suspension_at s k)
  Reach-MayExtend {s} k (next {t} {u} r st) =
      MayExtend-trans (suspension_at s k) (suspension_at t k) (suspension_at u k)
        (Reach-MayExtend k r) (Step-MayExtend k st)
