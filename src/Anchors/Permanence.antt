-- ===== src/Anchors/Permanence.antt =====
-- mod.rs: what stays so whatever happens later: revocations, suspensions, and the block numbers
-- of anchors.
use substrate_scaffold.Prelude.{ℕ, ◌-◌, ◌^◌, ◌≤◌, ◌≡◌, ◌≢◌, true, Option, none, some, List, arith}
use substrate_scaffold.Hasher.{Hashed}
use substrate_scaffold.Merkle.{MerkleRoot, ProofElement}
use substrate_scaffold.Result.{ok}
use substrate_scaffold.Storage.{get-insert}
use substrate_scaffold.Anchors.{
  Pallet, State, Revokable, not_revoked, revoked, Document, UnixTimeSeconds, AnchorKey,
  create_anchor_call, revoke_anchor_call, suspend_leaf_call, dispatch, lookup_anchor, create_anchor,
  revoke_anchor, suspend_leaf, leaf_suspended_by,
}
use substrate_scaffold.Anchors.Effects.{anchor_key_discrete}
use substrate_scaffold.Anchors.Outcomes.{
  create_anchor-ok_iff, revoke_anchor-ok_iff, suspend_leaf-ok_iff,
}
use substrate_scaffold.Anchors.Lifecycle.{
  Step, Reach, call, new_block, here, next, anchor_at, suspension_at, MayBecome, MayExtend,
  Reach-MayBecome, Reach-MayExtend,
}

abbrev pub u64_max : ℕ
u64_max = 2 ^ 64 - 1

MayExtend-some :
    (a b : Option UnixTimeSeconds) (end : UnixTimeSeconds)
    → MayExtend a b
    → a ≡ some end
    → (end' : UnixTimeSeconds) × (b ≡ some end') × (end ≤ end')
MayExtend-some none b end m e = cc
MayExtend-some (some x) b end m e = (m.0, m.1, ground arith)

MayBecome-revoked :
    (a b : Option (Revokable ℕ)) → MayBecome a b → a ≡ some revoked → b ≡ some revoked
MayBecome-revoked none b m e = cc
MayBecome-revoked (some revoked) b m e = m
MayBecome-revoked (some (not_revoked n)) b m e = ground arith

module _ (p : Pallet) where
  pub suspension_of_suspend_leaf :
      (origin : p.Origin) (admins : MerkleRoot p.AccountId p.TreeHashOut)
      (leaf : Hashed Document p.TreeHashOut) (proof : List (ProofElement p.TreeHashOut))
      (end : UnixTimeSeconds) (s : State p)
      → (suspend_leaf p origin admins leaf proof end s).0 ≡ ok tt
      → suspension_at p (suspend_leaf p origin admins leaf proof end s).1 (admins, leaf) ≡ some end
  unfolding suspend_leaf
  suspension_of_suspend_leaf origin admins leaf proof end s h =
      ground (arith, p.SuspendedLeaves.get-insert_self s.suspended_leaves (admins, leaf) end)

  -- A suspension until `u64::max()` is permanent: whatever happens after it, the leaf is suspended
  -- at every time that a `u64` holds, and no later `suspend_leaf` of that leaf succeeds.
  pub suspend_leaf_forever :
      (origin : p.Origin) (admins : MerkleRoot p.AccountId p.TreeHashOut)
      (leaf : Hashed Document p.TreeHashOut) (proof : List (ProofElement p.TreeHashOut))
      (s t : State p) (other_origin : p.Origin) (other_proof : List (ProofElement p.TreeHashOut))
      (time : UnixTimeSeconds)
      → (suspend_leaf p origin admins leaf proof u64_max s).0 ≡ ok tt
      → Reach p (suspend_leaf p origin admins leaf proof u64_max s).1 t
      → time ≤ u64_max
      → (leaf_suspended_by p t admins leaf time ≡ true)
        × ((suspend_leaf p other_origin admins leaf other_proof time t).0 ≢ ok tt)
  unfolding leaf_suspended_by
  suspend_leaf_forever origin admins leaf proof s t o q time h r le =
      let (end, stored, late) =
        MayExtend-some _ _ u64_max (Reach-MayExtend p (admins, leaf) r)
          (suspension_of_suspend_leaf origin admins leaf proof u64_max s h) in
      (ground arith, λ ok'. ground (arith, (suspend_leaf-ok_iff p o admins leaf q time t).0 ok'))

  pub anchor_of_revoke_anchor :
      (origin : p.Origin) (admins : MerkleRoot p.AccountId p.TreeHashOut)
      (root : MerkleRoot Document p.TreeHashOut) (proof : List (ProofElement p.TreeHashOut))
      (s : State p)
      → (revoke_anchor p origin admins root proof s).0 ≡ ok tt
      → anchor_at p (revoke_anchor p origin admins root proof s).1 (admins, root) ≡ some revoked
  unfolding revoke_anchor lookup_anchor
  anchor_of_revoke_anchor origin admins root proof s h =
      ground (arith, p.Anchors.get-insert_self s.anchors (admins, root) revoked)

  -- After a successful `revoke_anchor`, whatever happens later, the anchor is revoked, and neither
  -- `create_anchor` nor `revoke_anchor` of it succeeds, for any origin and proof.
  pub revoke_anchor_forever :
      (origin : p.Origin) (admins : MerkleRoot p.AccountId p.TreeHashOut)
      (root : MerkleRoot Document p.TreeHashOut) (proof : List (ProofElement p.TreeHashOut))
      (s t : State p) (other_origin : p.Origin) (other_proof : List (ProofElement p.TreeHashOut))
      → (revoke_anchor p origin admins root proof s).0 ≡ ok tt
      → Reach p (revoke_anchor p origin admins root proof s).1 t
      → (lookup_anchor p t admins root ≡ some revoked)
        × ((create_anchor p other_origin admins root t).0 ≢ ok tt)
        × ((revoke_anchor p other_origin admins root other_proof t).0 ≢ ok tt)
  revoke_anchor_forever origin admins root proof s t o q h r =
      let kept =
        MayBecome-revoked _ _ (Reach-MayBecome p (admins, root) r)
          (anchor_of_revoke_anchor origin admins root proof s h) in
      (
        kept,
        λ ok'. cc (kept, ((create_anchor-ok_iff p o admins root t).0 ok').1),
        λ ok'. ((revoke_anchor-ok_iff p o admins root q t).0 ok').1 kept,
      )

  -- No anchor bears a block number that is still to come.
  pub record IsDated (s : State p) : Type 0 where
    pub dated :
        (k : AnchorKey p.trait) (n : ℕ)
        → anchor_at p s k ≡ some (not_revoked n)
        → n ≤ s.block_number

  Step-IsDated : {s t : State p} → Step p s t → IsDated s → IsDated t
  unfolding dispatch lookup_anchor
  Step-IsDated (new_block s) d = record { dated = λ k n e. omega (arith, d.dated k n e) }
  Step-IsDated (call origin (create_anchor_call admins root) s) d = record {
    dated = λ k n e. ground (
      arith,
      get-insert p.Anchors (anchor_key_discrete p.trait) s.anchors (admins, root)
          (not_revoked s.block_number) k,
      d.dated k n,
    );
  }
  Step-IsDated (call origin (revoke_anchor_call admins root proof) s) d = record {
    dated = λ k n e. ground (
      arith,
      get-insert p.Anchors (anchor_key_discrete p.trait) s.anchors (admins, root) revoked k,
      d.dated k n,
    );
  }
  Step-IsDated (call origin (suspend_leaf_call admins leaf proof end) s) d = record {
    dated = λ k n e. ground (arith, d.dated k n);
  }

  -- The state before the first call: both maps are empty.
  abbrev pub genesis : ℕ → State p
  genesis number = record {
    anchors = p.Anchors.empty;
    suspended_leaves = p.SuspendedLeaves.empty;
    block_number = number;
  }

  -- In every history from the empty storage, the block number that a posted anchor bears is not
  -- beyond the chain's.
  Reach-IsDated : (number : ℕ) {t : State p} → Reach p (genesis number) t → IsDated t
  unfolding lookup_anchor
  Reach-IsDated number here = record { dated = λ k n e. ground (arith, p.Anchors.get-empty k) }
  Reach-IsDated number (next r st) = Step-IsDated st (Reach-IsDated number r)
