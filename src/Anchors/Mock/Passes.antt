-- ===== src/Anchors/Mock/Passes.antt =====
-- mod.rs, module `tests`: how the tests end, whatever the digest and the storage.
use substrate_scaffold.Prelude.{
  Bool-cases, ℕ, ◌≡◌, ◌≢◌, sym, ap, ◌∙◌, true, false, ◌⊎◌, inl, inr, none, List, [], ◌∷◌, Array,
  eq_nat, eq_array, arith,
}
use substrate_scaffold.FromAlt.{from_into}
use substrate_scaffold.Hasher.{prehashed, hash_u8, hash_slice, hash_array32}
use substrate_scaffold.Merkle.{from_root}
use substrate_scaffold.Result.{ok}
use substrate_scaffold.Storage.{StorageMap, storage_laws}
use substrate_scaffold.Anchors.{
  AnchorKey, LeafKey, Revokable, revoked, UnixTimeSeconds, create_anchor, revoke_anchor,
  suspend_leaf, lookup_anchor, leaf_suspended_by, is_member, hash_account_id, signed,
}
use substrate_scaffold.Anchors.Mock.{MockExternals, test_trait}
use substrate_scaffold.Anchors.Mock.Scenarios.{
  test_run, Test, one_member, execute_with, default_values_are_none, test_anchor, test_revoke,
  test_revoke_first, test_revoke_twice, test_revoke_two, test_suspend, test_suspend_twice,
  test_suspend_other, zeros, ones, absent, anchor, revoke, revoke_first, revoke_twice, revoke_two,
  suspend, suspend_twice, suspend_other,
}
use substrate_scaffold.Anchors.Mock.Members.{one_member-is_member, only_member, Clash}
use substrate_scaffold.Merkle.Soundness.{verify_proof-unhashed}

signer_of : (x : MockExternals) (who : ℕ) → x.ensure_signed (x.signed who) ≡ ok who
signer_of x = x.ensure_signed-signed

ruleset run_laws = (signer_of, storage_laws)

first_of : List ℕ → ℕ
first_of [] = 0
first_of (b ∷ bs) = b

zero-ne-one : ◌≢◌ {A = ℕ} 0 1
zero-ne-one e = omega arith

module _ (x : MockExternals) (anchors : StorageMap (AnchorKey (test_trait x)) (Revokable ℕ))
    (leaves : StorageMap (LeafKey (test_trait x)) UnixTimeSeconds) where
  default_values_are_none-passes :
      execute_with x anchors leaves (default_values_are_none x anchors leaves) ≡ ok tt
  unfolding default_values_are_none
  default_values_are_none-passes =
      let key : AnchorKey (test_trait x) = (from_root zeros, from_root zeros) in
      let leaf_key : LeafKey (test_trait x) = (from_root zeros, prehashed zeros) in
      ground (
        arith,
        anchors.get-empty key,
        anchors.exists-get anchors.empty key,
        leaves.get-empty leaf_key,
        leaves.exists-get leaves.empty leaf_key,
      )

  test_revoke-passes :
      is_member (test_trait x) (one_member x 0) [] 0 ≡ true
      → execute_with x anchors leaves (test_revoke x anchors leaves) ≡ ok tt
  unfolding test_revoke signed create_anchor revoke_anchor lookup_anchor
  test_revoke-passes m = simp (m, x.genesis_number-first, run_laws)

  test_anchor-passes :
      is_member (test_trait x) (from_root zeros) [] 0 ≡ false
      → execute_with x anchors leaves (test_anchor x anchors leaves) ≡ ok tt
  unfolding test_anchor signed create_anchor revoke_anchor lookup_anchor
  test_anchor-passes m = simp (m, x.genesis_number-first, run_laws)

  test_revoke_first-passes :
      is_member (test_trait x) (one_member x 0) [] 0 ≡ true
      → execute_with x anchors leaves (test_revoke_first x anchors leaves) ≡ ok tt
  unfolding test_revoke_first signed create_anchor revoke_anchor
  test_revoke_first-passes m = simp (m, run_laws)

  test_revoke_twice-passes :
      is_member (test_trait x) (one_member x 0) [] 0 ≡ true
      → execute_with x anchors leaves (test_revoke_twice x anchors leaves) ≡ ok tt
  unfolding test_revoke_twice signed create_anchor revoke_anchor
  test_revoke_twice-passes m = simp (m, run_laws)

  zeros-ne-ones : zeros ≢ ones
  unfolding first_of
  zeros-ne-ones e = absurd (zero-ne-one (ap (λ (a : Array ℕ 32). first_of a.items) e))

  other_anchor :
      anchors.get
        (anchors.insert anchors.empty (one_member x 0, from_root zeros) revoked)
        (one_member x 0, from_root ones)
      ≡ none
  unfolding from_root
  other_anchor =
      anchors.get-insert_ne anchors.empty _ _ revoked
        (λ e. zeros-ne-ones (ap (λ (k : AnchorKey (test_trait x)). k.1.hash) e))
      ∙ anchors.get-empty _

  test_revoke_two-passes :
      is_member (test_trait x) (one_member x 0) [] 0 ≡ true
      → execute_with x anchors leaves (test_revoke_two x anchors leaves) ≡ ok tt
  unfolding test_revoke_two signed create_anchor revoke_anchor
  test_revoke_two-passes m = simp (other_anchor, m, run_laws)

  test_suspend-passes :
      is_member (test_trait x) (one_member x 0) [] 0 ≡ true
      → execute_with x anchors leaves (test_suspend x anchors leaves) ≡ ok tt
  unfolding test_suspend signed suspend_leaf leaf_suspended_by
  test_suspend-passes m =
      simp (m, run_laws) (rw m (simp (m, storage_laws) (rw m (simp (storage_laws)))))

  test_suspend_twice-passes :
      is_member (test_trait x) (one_member x 0) [] 0 ≡ true
      → execute_with x anchors leaves (test_suspend_twice x anchors leaves) ≡ ok tt
  unfolding test_suspend_twice signed suspend_leaf
  test_suspend_twice-passes m = simp (m, run_laws)

  test_suspend_other-passes :
      is_member (test_trait x) (one_member x 0) [] 1 ≡ false
      → execute_with x anchors leaves (test_suspend_other x anchors leaves) ≡ ok tt
  unfolding test_suspend_other signed suspend_leaf
  test_suspend_other-passes m = simp (m, run_laws)

  each_passes :
      is_member (test_trait x) (from_root zeros) [] 0 ≡ false
      → is_member (test_trait x) (one_member x 0) [] 1 ≡ false
      → (t : Test) → execute_with x anchors leaves (test_run x anchors leaves t) ≡ ok tt
  each_passes nobody other absent = default_values_are_none-passes
  each_passes nobody other anchor = test_anchor-passes nobody
  each_passes nobody other revoke = test_revoke-passes (one_member-is_member x 0)
  each_passes nobody other revoke_first = test_revoke_first-passes (one_member-is_member x 0)
  each_passes nobody other revoke_twice = test_revoke_twice-passes (one_member-is_member x 0)
  each_passes nobody other revoke_two = test_revoke_two-passes (one_member-is_member x 0)
  each_passes nobody other suspend = test_suspend-passes (one_member-is_member x 0)
  each_passes nobody other suspend_twice = test_suspend_twice-passes (one_member-is_member x 0)
  each_passes nobody other suspend_other = test_suspend_other-passes other

  -- Whatever the digest and the storage: if no hash gives zeros, then each test of the pallet
  -- passes; or else a string hashed for the set of account 0 and one hashed for the claim of
  -- account 1 to be in it are a collision of the digest.
  pub tests_pass :
      ((s : x.Blake2s.State) → (from_into ⦃i = x.into_array⦄).from_alt (x.Blake2s.result s) ≢ zeros)
      → ((t : Test) → execute_with x anchors leaves (test_run x anchors leaves t) ≡ ok tt)
        ⊎ Clash x 0 [] 1
  unfolding is_member from_root
  tests_pass unhashed =
      let nobody =
        verify_proof-unhashed {T = ℕ} x.Blake2s ⦃f = from_into ⦃i = x.into_array⦄⦄ ⦃e = eq_array⦄
          (from_root zeros) [] (hash_account_id (test_trait x) 0) unhashed in
      elim (Bool-cases (is_member (test_trait x) (one_member x 0) [] 1)) [
        | inl m ↦ elim (only_member x 0 1 [] (omega arith) (omega arith) m) [
          | inl (same, empty) ↦ absurd (zero-ne-one (sym same))
          | inr c ↦ inr c
        ]
        | inr m ↦ inl (each_passes nobody m)
      ]
