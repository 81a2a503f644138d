-- ===== src/Anchors/Membership.antt =====
-- mod.rs with merkle.rs: the administrators as the leaves of a Merkle tree of hashed accounts, and
-- what `revoke_anchor` asks of them.
use substrate_scaffold.Prelude.{ℕ, ◌≤◌, ◌≡◌, ◌≢◌, ◌⊎◌, subst, Bool, true, some, List, length}
use substrate_scaffold.Hasher.{prehashed}
use substrate_scaffold.Hasher.Fixed.{Fixed}
use substrate_scaffold.Merkle.{MerkleRoot, ProofElement, from_root, verify_proof}
use substrate_scaffold.Merkle.Tree.{MTree, root_hash, random_proof}
use substrate_scaffold.Merkle.Extract.{Collision, tree_queries}
use substrate_scaffold.Merkle.Completeness.{verify_proof-random_proof}
use substrate_scaffold.Merkle.Soundness.{verify_proof_sound, proof_queries}
use substrate_scaffold.Result.{ok}
use substrate_scaffold.Anchors.{
  Pallet, State, revoked, Document, max_proof_size, is_member, hash_account_id, lookup_anchor,
  revoke_anchor,
}
use substrate_scaffold.Anchors.Outcomes.{IsAuthorized, revoke_anchor-ok_iff}

-- The members of `admins` are the leaves of a tree of hashed accounts.
module _ (p : Pallet) (tree : MTree p.TreeHashOut) where
  abbrev pub admins_of : MerkleRoot p.AccountId p.TreeHashOut
  admins_of = from_root (root_hash p.TreeHash ⦃h = p.hash_out⦄ ⦃f = p.from_out⦄ tree)

  abbrev pub proof_by : (ℕ → Bool) → List (ProofElement p.TreeHashOut) × p.TreeHashOut
  proof_by = random_proof p.TreeHash ⦃h = p.hash_out⦄ ⦃f = p.from_out⦄ tree

  -- An account whose hash is a leaf of the administrators' tree, at most 16 steps below its root,
  -- can revoke any anchor of theirs that is not revoked, posted or not.
  pub member_can_revoke :
      (coin : ℕ → Bool) (origin : p.Origin) (who : p.AccountId)
      (root : MerkleRoot Document p.TreeHashOut) (s : State p)
      → p.ensure_signed origin ≡ ok who
      → (proof_by coin).1 ≡ (hash_account_id p.trait who).hash
      → length (proof_by coin).0 ≤ max_proof_size
      → lookup_anchor p s admins_of root ≢ some revoked
      → (revoke_anchor p origin admins_of root (proof_by coin).0 s).0 ≡ ok tt
  unfolding is_member prehashed
  member_can_revoke coin origin who root s signed leaf short h =
      (revoke_anchor-ok_iff p origin admins_of root (proof_by coin).0 s).1 (
        record {
          who = who;
          signed_by = signed;
          is_short = short;
          member =
              subst
                (λ x.
                  verify_proof p.TreeHash ⦃h = p.hash_out⦄ ⦃f = p.from_out⦄ ⦃e = p.eq_out⦄ admins_of
                    (proof_by coin).0 (record { hash = x })
                  ≡ true)
                leaf
                (verify_proof-random_proof p.TreeHash ⦃h = p.hash_out⦄ ⦃f = p.from_out⦄
                  ⦃e = p.eq_out⦄ p.AccountId tree coin);
        },
        h,
      )

  -- The proof is one that the tree makes for the hash of `who`, or a string hashed for the tree and
  -- one hashed by the verification are a collision.
  abbrev pub Accounted : Fixed p.hash_out → List (ProofElement p.TreeHashOut) → p.AccountId → Type 0
  Accounted w proof who =
      ((coin : ℕ → Bool) × (proof_by coin ≡ (proof, (hash_account_id p.trait who).hash)))
      ⊎ Collision p.TreeHash ⦃h = p.hash_out⦄ ⦃f = p.from_out⦄ w
          (tree_queries p.TreeHash ⦃h = p.hash_out⦄ ⦃f = p.from_out⦄ w tree)
          (proof_queries p.TreeHash ⦃h = p.hash_out⦄ ⦃f = p.from_out⦄ ⦃e = p.eq_out⦄ w proof
            (hash_account_id p.trait who))

  pub IsAuthorized-Accounted :
      (w : Fixed p.hash_out) (origin : p.Origin) (proof : List (ProofElement p.TreeHashOut))
      (a : IsAuthorized p origin admins_of proof)
      → Accounted w proof a.who
  unfolding is_member
  IsAuthorized-Accounted w origin proof a =
      verify_proof_sound p.TreeHash ⦃h = p.hash_out⦄ ⦃f = p.from_out⦄ ⦃e = p.eq_out⦄ w tree proof
        (hash_account_id p.trait a.who) a.member

  -- A successful `revoke_anchor` was signed by an account whose hash is a leaf of the
  -- administrators' tree, which the proof given is a proof of; or else a string hashed for the tree
  -- and one hashed by the verification are a collision of the tree's hash function.
  revoke_anchor_sound :
      (w : Fixed p.hash_out) (origin : p.Origin) (root : MerkleRoot Document p.TreeHashOut)
      (proof : List (ProofElement p.TreeHashOut)) (s : State p)
      → (revoke_anchor p origin admins_of root proof s).0 ≡ ok tt
      → (who : p.AccountId) × (p.ensure_signed origin ≡ ok who) × Accounted w proof who
  revoke_anchor_sound w origin root proof s h =
      let a = ((revoke_anchor-ok_iff p origin admins_of root proof s).0 h).0 in
      (a.who, a.signed_by, IsAuthorized-Accounted w origin proof a)
