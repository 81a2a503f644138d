-- ===== src/Anchors/Authority.antt =====
-- mod.rs with merkle.rs: administrators whom nobody can prove to be one of.
use substrate_scaffold.Prelude.{◌≡◌, ◌≢◌, inl, inr, some, List}
use substrate_scaffold.Hasher.{Hashed}
use substrate_scaffold.Merkle.{MerkleRoot, ProofElement}
use substrate_scaffold.Merkle.Soundness.{verify_proof-unhashed}
use substrate_scaffold.Anchors.{
  Pallet, State, revoked, Document, is_member, hash_account_id, lookup_anchor,
}
use substrate_scaffold.Anchors.Outcomes.{IsAuthorized}
use substrate_scaffold.Anchors.Lifecycle.{Reach, suspension_at}
use substrate_scaffold.Anchors.Revocations.{revoked_by_authority}
use substrate_scaffold.Anchors.Suspensions.{suspended_by_authority}

module _ (p : Pallet) (admins : MerkleRoot p.AccountId p.TreeHashOut) where
  IsAuthorized-unhashed :
      (origin : p.Origin) (proof : List (ProofElement p.TreeHashOut))
      → ((h : p.TreeHash.State) → p.from_out.from_alt (p.TreeHash.result h) ≢ admins.hash)
      → ¬ IsAuthorized p origin admins proof
  unfolding is_member
  IsAuthorized-unhashed origin proof unhashed a = cc (
    a.member,
    verify_proof-unhashed p.TreeHash ⦃h = p.hash_out⦄ ⦃f = p.from_out⦄ ⦃e = p.eq_out⦄ admins proof
        (hash_account_id p.trait a.who) unhashed,
  )

  -- Where `admins` is the output of no hash, as zeros are taken not to be, no history revokes an
  -- anchor of it and none changes a suspension.
  pub irrevocable :
      {s t : State p} (root : MerkleRoot Document p.TreeHashOut)
      (leaf : Hashed Document p.TreeHashOut)
      → ((h : p.TreeHash.State) → p.from_out.from_alt (p.TreeHash.result h) ≢ admins.hash)
      → Reach p s t
      → lookup_anchor p s admins root ≢ some revoked
      → (lookup_anchor p t admins root ≢ some revoked)
        × (suspension_at p t (admins, leaf) ≡ suspension_at p s (admins, leaf))
  irrevocable root leaf unhashed r h = (
    λ e.
        let w = revoked_by_authority p admins root r h e in
        IsAuthorized-unhashed w.origin w.proof unhashed w.authorized,
    elim (suspended_by_authority p admins leaf r) [
      | inl same ↦ same
      | inr w ↦ absurd (IsAuthorized-unhashed w.origin w.proof unhashed w.authorized)
    ],
  )
