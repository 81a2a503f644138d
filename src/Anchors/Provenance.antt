-- ===== src/Anchors/Provenance.antt =====
-- mod.rs: where each entry of the storage comes from, in a chain that starts with empty storage.
use substrate_scaffold.Prelude.{ℕ, ◌≡◌, ◌≢◌, ◌⊎◌, inl, inr, none, some, Option-cases, arith}
use substrate_scaffold.Merkle.{MerkleRoot}
use substrate_scaffold.Hasher.{Hashed}
use substrate_scaffold.Anchors.{
  Pallet, State, Revokable, not_revoked, revoked, Document, UnixTimeSeconds, lookup_anchor,
}
use substrate_scaffold.Anchors.Lifecycle.{Reach, suspension_at}
use substrate_scaffold.Anchors.Permanence.{genesis}
use substrate_scaffold.Anchors.Postings.{Posting, posted_by}
use substrate_scaffold.Anchors.Revocations.{Revocation, revoked_by_authority}
use substrate_scaffold.Anchors.Suspensions.{Until, Reach-Until}

module _ (p : Pallet) (number : ℕ) where
  -- Nothing is stored for an anchor; or it is posted, with the block in which it was; or it is
  -- revoked, by a member of its administrators.
  abbrev pub AnchorOrigin :
      (s : State p)
      → MerkleRoot p.AccountId p.TreeHashOut
      → MerkleRoot Document p.TreeHashOut
      → Type 0
  AnchorOrigin s admins root =
      (lookup_anchor p s admins root ≡ none)
      ⊎ ((n : ℕ) × (lookup_anchor p s admins root ≡ some (not_revoked n))
          × Posting p admins root n (genesis p number) s)
      ⊎ ((lookup_anchor p s admins root ≡ some revoked)
          × Revocation p admins root (genesis p number) s)

  -- A leaf has no suspension, or the end that is stored is that of one on the way.
  abbrev pub EndOrigin :
      (s : State p) → MerkleRoot p.AccountId p.TreeHashOut → Hashed Document p.TreeHashOut → Type 0
  EndOrigin s admins leaf =
      (suspension_at p s (admins, leaf) ≡ none)
      ⊎ ((end : UnixTimeSeconds) × (suspension_at p s (admins, leaf) ≡ some end)
          × Until p admins leaf end (genesis p number) s)

  empty_anchor :
      (admins : MerkleRoot p.AccountId p.TreeHashOut) (root : MerkleRoot Document p.TreeHashOut)
      (a : Revokable ℕ)
      → lookup_anchor p (genesis p number) admins root ≢ some a
  unfolding lookup_anchor
  empty_anchor admins root a e = ground (arith, p.Anchors.get-empty (admins, root), e)

  empty_leaf :
      (admins : MerkleRoot p.AccountId p.TreeHashOut) (leaf : Hashed Document p.TreeHashOut)
      (end : UnixTimeSeconds)
      → suspension_at p (genesis p number) (admins, leaf) ≢ some end
  empty_leaf admins leaf end e = ground (arith, p.SuspendedLeaves.get-empty (admins, leaf), e)

  stored_anchor :
      (admins : MerkleRoot p.AccountId p.TreeHashOut) (root : MerkleRoot Document p.TreeHashOut)
      {s : State p}
      → Reach p (genesis p number) s
      → (a : Revokable ℕ) → lookup_anchor p s admins root ≡ some a
      → AnchorOrigin s admins root
  stored_anchor admins root r (not_revoked n) e =
      inr (inl (n, e, posted_by p admins root n r (empty_anchor admins root (not_revoked n)) e))
  stored_anchor admins root r revoked e =
      inr (inr (e, revoked_by_authority p admins root r (empty_anchor admins root revoked) e))

  -- Everything in the storage of a chain that starts with empty storage has its origin. An anchor
  -- that is stored was posted, in the block whose number it bears, by a signed `create_anchor` that
  -- found nothing stored, or it was revoked by a `revoke_anchor` that a member of its
  -- administrators signed; and the end that is stored for a leaf was given in a `suspend_leaf` that
  -- such a member signed.
  pub Reach-origin :
      {s : State p}
      → Reach p (genesis p number) s
      → (admins : MerkleRoot p.AccountId p.TreeHashOut)
      → ((root : MerkleRoot Document p.TreeHashOut) → AnchorOrigin s admins root)
        × ((leaf : Hashed Document p.TreeHashOut) → EndOrigin s admins leaf)
  Reach-origin {s} r admins = (
    λ root. elim (Option-cases (lookup_anchor p s admins root)) [
      | inl e ↦ inl e
      | inr (a, e) ↦ stored_anchor admins root r a e
    ],
    λ leaf. elim (Option-cases (suspension_at p s (admins, leaf))) [
      | inl e ↦ inl e
      | inr (end, e) ↦ inr (end, e, Reach-Until p admins leaf end r (empty_leaf admins leaf end) e)
    ],
  )
