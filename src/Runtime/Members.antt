-- ===== src/Runtime/Members.antt =====
-- lib.rs with mod.rs and merkle.rs: the runtime's administrators as a tree of accounts, from the
-- accounts' bytes to the calls that they make.
use mathlib.Core.List.{Memᴰ}
use mathlib.Core.List.Memᴰ as Mem
use substrate_scaffold.Prelude.{
  length, length-reverse, ℕ, true, false, ◌≤◌, ◌≡◌, ◌≢◌, refl, sym, ap, ◌∙◌, ◌⊎◌, inl, inr, some,
  List, ◌∷◌, ◌++◌, map, Array, arith, eq_array, eq_nat,
}
use substrate_scaffold.FromAlt.{from_into}
use substrate_scaffold.Hasher.{FromOutput, Hashed, hash_u8, hash_slice, hash_array32}
use substrate_scaffold.Hasher.Preimage.{
  digest_bytes, from_preimage-digest_bytes, feeds_slice, feeds_u8, bytes_each-u8,
}
use substrate_scaffold.Hasher.Fixed.{fixed_array32}
use substrate_scaffold.Merkle.{MerkleRoot, ProofElement}
use substrate_scaffold.Merkle.Tree.{MTree}
use substrate_scaffold.Merkle.Climb.{reached, siblings, random_proof-siblings}
use substrate_scaffold.Merkle.Leaves.{
  leaf_list, within, steps, steps-map_tree, length-siblings, reached-within, within-reached,
  map_tree, reached-map_tree, reached-Memᴰ,
}
use substrate_scaffold.Merkle.Extract.{Collision, tree_queries, same_or_Collision, wider}
use substrate_scaffold.Merkle.Soundness.{proof_queries}
use substrate_scaffold.Result.{ok}
use substrate_scaffold.Storage.{StorageMap}
use substrate_scaffold.Anchors.{
  Pallet, State, Revokable, revoked, Document, UnixTimeSeconds, AnchorKey, LeafKey, max_proof_size,
  hash_account_id, lookup_anchor, revoke_anchor, leaf_suspended_by,
}
use substrate_scaffold.Anchors.Lifecycle.{Reach}
use substrate_scaffold.Anchors.Outcomes.{IsAuthorized}
use substrate_scaffold.Anchors.Revocations.{Revocation, revoked_by_authority}
use substrate_scaffold.Anchors.Suspensions.{Suspension, suspended_by_authority}
use substrate_scaffold.Anchors.Membership.{
  admins_of, proof_by, Accounted, IsAuthorized-Accounted, member_can_revoke,
}
use substrate_scaffold.Runtime.{Externals, runtime, anchors_pallet}
use substrate_scaffold.Runtime.Accounts.{hash_account_id-blake_bytes}

module _ (x : Externals) where
  instance abbrev blake_output : FromOutput x.Blake2s (Array ℕ 32)
  blake_output = from_into ⦃i = x.into_array⦄

  abbrev pub account_hash : x.AccountId → Array ℕ 32
  account_hash who = (hash_account_id (runtime x) who).hash

  -- The leaves of the administrators' tree are the hashes of their accounts.
  abbrev pub hashed : MTree x.AccountId → MTree (Array ℕ 32)
  hashed = map_tree account_hash

  pub account_hash-digest_bytes :
      (who : x.AccountId) → account_hash who ≡ digest_bytes x.Blake2s (x.as_ref who)
  account_hash-digest_bytes who =
      hash_account_id-blake_bytes x who
      ∙ from_preimage-digest_bytes x.Blake2s (feeds_slice feeds_u8) (x.as_ref who)
      ∙ ap (digest_bytes x.Blake2s) (bytes_each-u8 (x.as_ref who))

  -- The strings that are hashed to set up a tree of accounts, and to check a claim to be in it.
  abbrev pub group_queries : MTree x.AccountId → List (List ℕ)
  group_queries t = map x.as_ref (leaf_list t) ++ tree_queries x.Blake2s fixed_array32 (hashed t)

  abbrev pub claim_queries : List (ProofElement (Array ℕ 32)) → x.AccountId → List (List ℕ)
  claim_queries proof who =
      x.as_ref who ∷ proof_queries x.Blake2s fixed_array32 proof (hash_account_id (runtime x) who)

  -- The accounts that a proof of 16 elements reaches.
  abbrev pub members : MTree x.AccountId → List x.AccountId
  members t = within max_proof_size t

  -- The account is in the tree, at most 16 steps below its root, or a string that was hashed for
  -- the tree and one that is hashed for the claim are a collision of Blake2s.
  abbrev pub IsMember : MTree x.AccountId → List (ProofElement (Array ℕ 32)) → x.AccountId → Type 0
  IsMember t proof who =
      Memᴰ who (members t)
      ⊎ Collision x.Blake2s fixed_array32 (group_queries t) (claim_queries proof who)

  same_hash-IsMember :
      (t : MTree x.AccountId) (proof : List (ProofElement (Array ℕ 32))) (a who : x.AccountId)
      → Memᴰ a (leaf_list t)
      → Memᴰ a (members t)
      → account_hash a ≡ account_hash who
      → IsMember t proof who
  same_hash-IsMember t proof a who m near e =
      let digests = sym (account_hash-digest_bytes a) ∙ e ∙ account_hash-digest_bytes who in
      elim (same_or_Collision x.Blake2s fixed_array32 {S = group_queries t}
        {R = claim_queries proof who} (x.as_ref a) (x.as_ref who)
        (Mem.append_left _ (Mem.map x.as_ref m)) (Memᴰ.head refl) digests) [
          | inl same ↦ inl (Mem.cast (sym (x.as_ref-injective a who same)) near)
          | inr c ↦ inr c
        ]

  module _ (anchors : StorageMap (AnchorKey (runtime x)) (Revokable ℕ))
      (suspended_leaves : StorageMap (LeafKey (runtime x)) UnixTimeSeconds)
      (t : MTree x.AccountId) where
    abbrev pub chain_of : Pallet
    chain_of = anchors_pallet x anchors suspended_leaves

    abbrev pub group : MerkleRoot x.AccountId (Array ℕ 32)
    group = admins_of chain_of (hashed t)

    Accounted-IsMember :
        (proof : List (ProofElement (Array ℕ 32))) (who : x.AccountId)
        → length proof ≤ max_proof_size
        → Accounted chain_of (hashed t) fixed_array32 proof who
        → IsMember t proof who
    Accounted-IsMember proof who short (inl (coin, e)) =
        let same = sym (random_proof-siblings x.Blake2s (hashed t) coin) ∙ e in
        let low : steps t coin ≤ max_proof_size = omega (
          arith,
          short,
          ap (λ (r : List (ProofElement (Array ℕ 32)) × Array ℕ 32). length r.0) same,
          length-reverse (siblings x.Blake2s (hashed t) coin),
          length-siblings x.Blake2s (hashed t) coin,
          steps-map_tree account_hash t coin,
        ) in
        let leaf_met = sym (reached-map_tree account_hash t coin) ∙ ap (λ r. r.1) same in
        same_hash-IsMember t proof (reached t coin) who (reached-Memᴰ t coin)
          (reached-within max_proof_size t coin low) leaf_met
    Accounted-IsMember proof who short (inr c) =
        inr (wider x.Blake2s fixed_array32 (λ a m. Mem.append_right _ m) (λ a m. Memᴰ.tail m) c)

    pub IsAuthorized-IsMember :
        (origin : x.Origin) (proof : List (ProofElement (Array ℕ 32)))
        (a : IsAuthorized chain_of origin group proof)
        → IsMember t proof a.who
    IsAuthorized-IsMember origin proof a =
        Accounted-IsMember proof a.who a.is_short
          (IsAuthorized-Accounted chain_of (hashed t) fixed_array32 origin proof a)

    -- Where the administrators are the root of a tree of accounts: an anchor of theirs that comes
    -- to be revoked, in whatever history, is revoked by a `revoke_anchor` of it on the way, and
    -- that was signed by an account that is in the tree, at most 16 steps below its root; or else a
    -- string hashed for the tree and one hashed for that call's proof are a collision of Blake2s.
    pub revoked_by-IsMember :
        {s u : State chain_of} (root : MerkleRoot Document (Array ℕ 32))
        → Reach chain_of s u
        → lookup_anchor chain_of s group root ≢ some revoked
        → lookup_anchor chain_of u group root ≡ some revoked
        → (w : Revocation chain_of group root s u) × IsMember t w.proof w.authorized.who
    revoked_by-IsMember root r h e =
        let w = revoked_by_authority chain_of group root r h e in
        (w, IsAuthorized-IsMember w.origin w.proof w.authorized)

    -- Where the administrators are the root of a tree of accounts: a leaf that is suspended at a
    -- time at the end of a history and was not at its start is suspended by a `suspend_leaf` of it
    -- on the way, and that was signed by an account that is in the tree, at most 16 steps below its
    -- root; or else a string hashed for the tree and one hashed for that call's proof are a
    -- collision of Blake2s.
    pub suspended_by-IsMember :
        {s u : State chain_of} (leaf : Hashed Document (Array ℕ 32)) (now : UnixTimeSeconds)
        → Reach chain_of s u
        → leaf_suspended_by chain_of s group leaf now ≡ false
        → leaf_suspended_by chain_of u group leaf now ≡ true
        → (w : Suspension chain_of group leaf s u) × IsMember t w.proof w.authorized.who
    unfolding leaf_suspended_by
    suspended_by-IsMember leaf now r before after =
        elim (suspended_by_authority chain_of group leaf r) [
          | inl same ↦ absurd (ground (arith, same))
          | inr w ↦ (w, IsAuthorized-IsMember w.origin w.proof w.authorized)
        ]

    -- The proof that the tree makes for an account in it.
    unfoldable pub member_proof :
        {who : x.AccountId} → Memᴰ who (members t) → List (ProofElement (Array ℕ 32))
    member_proof m = (proof_by chain_of (hashed t) (within-reached max_proof_size t m).0).0

    pub member_proof-revokes :
        (origin : x.Origin) (who : x.AccountId) (root : MerkleRoot Document (Array ℕ 32))
        (s : State chain_of) (m : Memᴰ who (members t))
        → x.ensure_signed origin ≡ ok who
        → lookup_anchor chain_of s group root ≢ some revoked
        → (revoke_anchor chain_of origin group root (member_proof m) s).0 ≡ ok tt
    unfolding member_proof
    member_proof-revokes origin who root s m signed h =
        let (coin, e, low) = within-reached max_proof_size t m in
        let made = random_proof-siblings x.Blake2s (hashed t) coin in
        let met = ap (λ r. r.1) made ∙ reached-map_tree account_hash t coin ∙ ap account_hash e in
        let short : length (proof_by chain_of (hashed t) coin).0 ≤ max_proof_size = omega (
          arith,
          low,
          ap (λ (r : List (ProofElement (Array ℕ 32)) × Array ℕ 32). length r.0) made,
          length-reverse (siblings x.Blake2s (hashed t) coin),
          length-siblings x.Blake2s (hashed t) coin,
          steps-map_tree account_hash t coin,
        ) in
        member_can_revoke chain_of (hashed t) coin origin who root s signed met short h

    -- Every account of the tree that is at most 16 steps below its root has a proof with which it
    -- can revoke any anchor of the tree's root that is not revoked, posted or not.
    pub every_member_can_revoke :
        (origin : x.Origin) (who : x.AccountId) (root : MerkleRoot Document (Array ℕ 32))
        (s : State chain_of)
        → Memᴰ who (members t)
        → x.ensure_signed origin ≡ ok who
        → lookup_anchor chain_of s group root ≢ some revoked
        → (proof : List (ProofElement (Array ℕ 32))) × ((revoke_anchor chain_of origin group root
              proof s).0
            ≡ ok tt)
    every_member_can_revoke origin who root s m signed h =
        (member_proof m, member_proof-revokes origin who root s m signed h)
