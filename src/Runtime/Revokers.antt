-- ===== src/Runtime/Revokers.antt =====
-- lib.rs with mod.rs and merkle.rs: how many accounts a set of administrators can hold, and what
-- they can keep others from doing.
use substrate_scaffold.Prelude.{
  ℕ, ◌^◌, ◌≤◌, ◌≡◌, ◌≢◌, Option-cases, arith, ◌⊎◌, inl, inr, none, some, List, length, Array,
}
use substrate_scaffold.Hasher.{Hashed}
use substrate_scaffold.Merkle.{MerkleRoot, ProofElement}
use substrate_scaffold.Merkle.Tree.{MTree}
use substrate_scaffold.Merkle.Leaves.{length-within}
use substrate_scaffold.Result.{ok}
use substrate_scaffold.Storage.{StorageMap}
use substrate_scaffold.Anchors.{
  Pallet, State, Revokable, not_revoked, revoked, Document, UnixTimeSeconds, AnchorKey, LeafKey,
  max_proof_size, create_anchor, revoke_anchor, suspend_leaf, lookup_anchor,
}
use substrate_scaffold.Anchors.Outcomes.{IsAuthorized, revoke_anchor-ok_iff, suspend_leaf-ok_iff}
use substrate_scaffold.Anchors.Lifecycle.{Reach}
use substrate_scaffold.Anchors.Revocations.{Revocation}
use substrate_scaffold.Runtime.{Externals, runtime}
use substrate_scaffold.Runtime.Members.{
  members, chain_of, group, IsMember, IsAuthorized-IsMember, revoked_by-IsMember,
}

module _ (p : Pallet) (origin : p.Origin) (admins : MerkleRoot p.AccountId p.TreeHashOut)
    (root : MerkleRoot Document p.TreeHashOut) (u : State p) where
  posted_by_create :
      (who : p.AccountId)
      → p.ensure_signed origin ≡ ok who
      → lookup_anchor p u admins root ≡ none
      → lookup_anchor p (create_anchor p origin admins root u).1 admins root
        ≡ some (not_revoked u.block_number)
  unfolding create_anchor lookup_anchor
  posted_by_create who signed e = ground (
    arith,
    p.Anchors.exists-get u.anchors (admins, root),
    p.Anchors.get-insert_self u.anchors (admins, root) (not_revoked u.block_number),
  )

  kept_by_create :
      (n : ℕ)
      → lookup_anchor p u admins root ≡ some (not_revoked n)
      → lookup_anchor p (create_anchor p origin admins root u).1 admins root ≡ some (not_revoked n)
  unfolding create_anchor lookup_anchor
  kept_by_create n e = ground (arith, p.Anchors.exists-get u.anchors (admins, root))

module _ (x : Externals) (anchors : StorageMap (AnchorKey (runtime x)) (Revokable ℕ))
    (suspended_leaves : StorageMap (LeafKey (runtime x)) UnixTimeSeconds)
    (t : MTree x.AccountId) where
  -- A member signed, or a string hashed for the tree and one hashed for the proof are a collision.
  abbrev pub SignedByMember : x.Origin → List (ProofElement (Array ℕ 32)) → Type 0
  SignedByMember origin proof =
      (who : x.AccountId) × (x.ensure_signed origin ≡ ok who) × IsMember x t proof who

  -- `MAX_PROOF_SIZE` decides the number of accounts that can be authorized to revoke. Whatever tree
  -- of accounts the administrators are the root of, the accounts at most 16 steps below the root are
  -- at most 2 ^ 16, and a `revoke_anchor` or a `suspend_leaf` that succeeds, in whatever state, is
  -- signed by one of them; or else a string hashed for the tree and one hashed for that call's proof
  -- are a collision of Blake2s.
  pub length-members-le :
      (origin : x.Origin) (root : MerkleRoot Document (Array ℕ 32))
      (leaf : Hashed Document (Array ℕ 32)) (proof : List (ProofElement (Array ℕ 32)))
      (end : UnixTimeSeconds) (s : State (chain_of x anchors suspended_leaves t))
      → ((revoke_anchor
            (chain_of x anchors suspended_leaves t)
            origin
            (group x anchors suspended_leaves t)
            root
            proof
            s).0
          ≡ ok tt)
        ⊎ ((suspend_leaf
              (chain_of x anchors suspended_leaves t)
              origin
              (group x anchors suspended_leaves t)
              leaf
              proof
              end
              s).0
            ≡ ok tt)
      → (length (members x t) ≤ 2 ^ 16) × SignedByMember origin proof
  length-members-le origin root leaf proof end s h = (
    length-within max_proof_size t,
    let p = chain_of x anchors suspended_leaves t in
        let admins = group x anchors suspended_leaves t in
        let a : IsAuthorized p origin admins proof = elim h [
          | inl e ↦ ((revoke_anchor-ok_iff p origin admins root proof s).0 e).0
          | inr e ↦ ((suspend_leaf-ok_iff p origin admins leaf proof end s).0 e).0
        ] in
        (a.who, a.signed_by, IsAuthorized-IsMember x anchors suspended_leaves t origin proof a),
  )

  -- Nobody but a member keeps an anchor of the administrators from being posted. Whatever calls have
  -- been made since a state in which it was not revoked: after a `create_anchor` of it with a signed
  -- origin it is posted, or else a `revoke_anchor` of it on the way was signed by an account in the
  -- tree, at most 16 steps below its root, or a string hashed for the tree and one hashed for that
  -- call's proof are a collision of Blake2s.
  pub create_anchor-posted :
      {s u : State (chain_of x anchors suspended_leaves t)} (origin : x.Origin) (who : x.AccountId)
      (root : MerkleRoot Document (Array ℕ 32))
      → lookup_anchor
          (chain_of x anchors suspended_leaves t)
          s
          (group x anchors suspended_leaves t)
          root
        ≢ some revoked
      → Reach (chain_of x anchors suspended_leaves t) s u
      → x.ensure_signed origin ≡ ok who
      → let after =
          (create_anchor
            (chain_of x anchors suspended_leaves t)
            origin
            (group x anchors suspended_leaves t)
            root
            u).1 in
        ((n : ℕ) × (lookup_anchor
              (chain_of x anchors suspended_leaves t)
              after
              (group x anchors suspended_leaves t)
              root
            ≡ some (not_revoked n)))
        ⊎ ((w : Revocation
              (chain_of x anchors suspended_leaves t)
              (group x anchors suspended_leaves t)
              root
              s
              u)
            × IsMember x t w.proof w.authorized.who)
  create_anchor-posted {s} {u} origin who root h r signed =
      let p = chain_of x anchors suspended_leaves t in
      let admins = group x anchors suspended_leaves t in
      elim (Option-cases (lookup_anchor p u admins root)) [
        | inl e ↦ inl (u.block_number, posted_by_create p origin admins root u who signed e)
        | inr (not_revoked n, e) ↦ inl (n, kept_by_create p origin admins root u n e)
        | inr (revoked, e) ↦ inr (revoked_by-IsMember x anchors suspended_leaves t root r h e)
      ]
