-- ===== src/Anchors/Mock/Members.antt =====
-- mod.rs, module `tests`: the set of one `u64` account, `blake(blake(account.to_be_bytes()))`.
use mathlib.Core.List.{Memᴰ}
use substrate_scaffold.Prelude.{
  ℕ, ◌^◌, ◌<◌, ◌≡◌, refl, sym, ap, ◌∙◌, Bool, true, ◌⊎◌, inl, inr, List, [], ◌∷◌, Array, eq_nat,
  eq_array,
}
use substrate_scaffold.FromAlt.{from_into}
use substrate_scaffold.Hasher.{
  FromOutput, prehashed, hash_u8, hash_slice, hash_array32, hash_hashed, from_preimage,
}
use substrate_scaffold.Hasher.Preimage.{
  digest_bytes, from_preimage-digest_bytes, feeds_slice, feeds_u8, bytes_each-u8,
}
use substrate_scaffold.Hasher.Fixed.{fixed_array32}
use substrate_scaffold.Merkle.{ProofElement, from_root, verify_proof}
use substrate_scaffold.Merkle.Tree.{MTree, leaf, root_hash, random_proof}
use substrate_scaffold.Merkle.Extract.{Collision, tree_queries, same_or_Collision, wider}
use substrate_scaffold.Merkle.Soundness.{proof_queries, verify_proof_sound}
use substrate_scaffold.Anchors.{hash_account_id, is_member}
use substrate_scaffold.Anchors.Mock.{MockExternals, to_be_bytes, hash_u64_account, test_trait}
use substrate_scaffold.Anchors.Mock.Bytes.{to_be_bytes-injective}
use substrate_scaffold.Anchors.Mock.Scenarios.{blake_slice, blake_array, one_member}

module _ (x : MockExternals) where
  instance abbrev blake_output : FromOutput x.Blake2s (Array ℕ 32)
  blake_output = from_into ⦃i = x.into_array⦄

  abbrev account_hash : ℕ → Array ℕ 32
  account_hash who = (hash_account_id (test_trait x) who).hash

  -- The pallet hashes an account as `digest`, at once, and `blake` byte by byte.
  blake_slice-digest_bytes : (bs : List ℕ) → blake_slice x bs ≡ digest_bytes x.Blake2s bs
  blake_slice-digest_bytes bs =
      from_preimage-digest_bytes x.Blake2s (feeds_slice feeds_u8) bs
      ∙ ap (digest_bytes x.Blake2s) (bytes_each-u8 bs)

  account_hash-blake_slice : (who : ℕ) → account_hash who ≡ blake_slice x (to_be_bytes who)
  unfolding hash_account_id hash_u64_account prehashed
  account_hash-blake_slice who = sym (blake_slice-digest_bytes (to_be_bytes who))

  leaf_of : ℕ → MTree (Array ℕ 32)
  leaf_of who = leaf (account_hash who)

  one_member-root : (who : ℕ) → one_member x who ≡ from_root (root_hash x.Blake2s (leaf_of who))
  unfolding leaf_of root_hash
  one_member-root who = ap (λ h. from_root (blake_array x h)) (sym (account_hash-blake_slice who))

  -- The account of a set of one is accepted, with the empty proof.
  pub one_member-is_member : (who : ℕ) → is_member (test_trait x) (one_member x who) [] who ≡ true
  unfolding is_member verify_proof from_root from_preimage hash_hashed
  one_member-is_member who =
      ((eq_array {A = ℕ} {n = 32}).eq_iff _ _).1 (ap (blake_array x) (account_hash-blake_slice who))

  -- A string hashed for the set of `who`, and one hashed for a claim to be in it, collide.
  abbrev pub Clash : ℕ → List (ProofElement (Array ℕ 32)) → ℕ → Type 0
  Clash who proof other =
      Collision x.Blake2s fixed_array32
        (to_be_bytes who ∷ tree_queries x.Blake2s fixed_array32 (leaf (account_hash who)))
        (to_be_bytes other
          ∷ proof_queries x.Blake2s fixed_array32 proof (hash_account_id (test_trait x) other))

  of_leaf :
      (who other : ℕ) (proof : List (ProofElement (Array ℕ 32)))
      → who < 2 ^ 64
      → other < 2 ^ 64
      → ((coin : ℕ → Bool) × (random_proof x.Blake2s (leaf_of who) coin
            ≡ (proof, account_hash other)))
      → ((other ≡ who) × (proof ≡ [])) ⊎ Clash who proof other
  unfolding leaf_of random_proof
  of_leaf who other proof h k (coin, e) =
      let hashes = sym (ap (λ r. r.1) e) in
      let digests =
        sym (blake_slice-digest_bytes (to_be_bytes who))
        ∙ sym (account_hash-blake_slice who)
        ∙ sym hashes
        ∙ account_hash-blake_slice other
        ∙ blake_slice-digest_bytes (to_be_bytes other) in
      elim (same_or_Collision x.Blake2s fixed_array32
        {S = to_be_bytes who ∷ tree_queries x.Blake2s fixed_array32 (leaf (account_hash who))}
        {R = to_be_bytes other
          ∷ proof_queries x.Blake2s fixed_array32 proof (hash_account_id (test_trait x) other)}
        (to_be_bytes who) (to_be_bytes other) (Memᴰ.head refl) (Memᴰ.head refl) digests) [
          | inl same ↦ inl (to_be_bytes-injective other who k h (sym same), sym (ap (λ r. r.0) e))
          | inr c ↦ inr c
        ]

  -- A `u64` that is accepted for the set of one account is that account, with the empty proof; or
  -- else a string hashed for the set and one hashed for the check are a collision of the digest.
  pub only_member :
      (who other : ℕ) (proof : List (ProofElement (Array ℕ 32)))
      → who < 2 ^ 64
      → other < 2 ^ 64
      → is_member (test_trait x) (one_member x who) proof other ≡ true
      → ((other ≡ who) × (proof ≡ [])) ⊎ Clash who proof other
  unfolding is_member leaf_of
  only_member who other proof h k m =
      elim (verify_proof_sound x.Blake2s ⦃e = eq_array⦄ fixed_array32 (leaf_of who) proof
        (hash_account_id (test_trait x) other)
        (ap
            (λ r.
              verify_proof x.Blake2s ⦃e = eq_array⦄ r proof (hash_account_id (test_trait x) other))
            (sym (one_member-root who))
          ∙ m)) [
            | inl made ↦ of_leaf who other proof h k made
            | inr c ↦
                inr (wider x.Blake2s fixed_array32 (λ a n. Memᴰ.tail n) (λ a n. Memᴰ.tail n) c)
          ]
