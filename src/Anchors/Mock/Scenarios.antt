-- ===== src/Anchors/Mock/Scenarios.antt =====
-- mod.rs, module `tests`: the tests, as runs on the state that fail where an assertion does. Each
-- `execute_with` starts from a new state, so it is a run of its own.
use substrate_scaffold.Prelude.{
  ℕ, ◌-◌, ◌^◌, refl, if◌then◌else◌, zero, suc, ◌∷◌, Bool, true, false, not, Option, none, some,
  List, [], Array, ◌==◌, eq_nat, eq_array,
}
use substrate_scaffold.FromAlt.{from_into}
use substrate_scaffold.Hasher.{Hashed, prehashed, from_preimage, hash_u8, hash_slice, hash_array32}
use substrate_scaffold.Merkle.{MerkleRoot, from_root}
use substrate_scaffold.Result.{Result, ok, err, Exec, ◌>>◌}
use substrate_scaffold.Storage.{StorageMap}
use substrate_scaffold.Anchors.{
  Pallet, State, AnchorKey, LeafKey, Revokable, not_revoked, revoked, UnixTimeSeconds, Document,
  create_anchor, revoke_anchor, suspend_leaf, lookup_anchor, leaf_suspended_by,
}
use substrate_scaffold.Anchors.Mock.{
  MockExternals, to_be_bytes, test_trait, test_pallet, new_test_ext,
}

-- `[b; n]`
abbrev repeated : ℕ → ℕ → List ℕ
repeated b zero = []
repeated b (suc n) = b ∷ repeated b n

abbrev pub zeros : Array ℕ 32
zeros = record { items = repeated 0 32; size = refl }

abbrev pub ones : Array ℕ 32
ones = record { items = repeated 1 32; size = refl }

-- The tests, one by one, with the runs of `revoke_anchor` and of `suspend_leaf` apart.
pub data Test : Type 0 where
  absent : Test
  anchor : Test
  revoke : Test
  revoke_first : Test
  revoke_twice : Test
  revoke_two : Test
  suspend : Test
  suspend_twice : Test
  suspend_other : Test

pub data Failed : Type 0 where
  failed : Failed

-- `PartialEq` of `Revokable`, which it derives.
abbrev pub eq_revokable : Revokable ℕ → Revokable ℕ → Bool
eq_revokable (not_revoked m) (not_revoked n) = m == n
eq_revokable revoked revoked = true
eq_revokable _ _ = false

abbrev pub eq_anchor : Option (Revokable ℕ) → Option (Revokable ℕ) → Bool
eq_anchor none none = true
eq_anchor (some a) (some b) = eq_revokable a b
eq_anchor _ _ = false

module _ {S : Type 0} where
  abbrev pub unwrapped : {E A : Type 0} → Result E A × S → Result Failed (Unit {0}) × S
  unwrapped (ok a, s) = (ok tt, s)
  unwrapped (err e, s) = (err failed, s)

  -- `.unwrap()` of a call.
  abbrev pub unwrap : {E A : Type 0} → Exec S E A → Exec S Failed (Unit {0})
  unwrap m s = unwrapped (m s)

  abbrev pub err_unwrapped : {E A : Type 0} → Result E A × S → Result Failed (Unit {0}) × S
  err_unwrapped (ok a, s) = (err failed, s)
  err_unwrapped (err e, s) = (ok tt, s)

  -- `.unwrap_err()` and `.expect_err(…)`
  abbrev pub unwrap_err : {E A : Type 0} → Exec S E A → Exec S Failed (Unit {0})
  unwrap_err m s = err_unwrapped (m s)

  abbrev asserted : Bool → S → Result Failed (Unit {0}) × S
  asserted true s = (ok tt, s)
  asserted false s = (err failed, s)

  -- `assert!` and `assert_eq!`
  abbrev pub assert : (S → Bool) → Exec S Failed (Unit {0})
  assert test s = asserted (test s) s

module _ (x : MockExternals) where
  -- `blake`, of a slice of bytes and of a hash.
  abbrev pub blake_slice : List ℕ → Array ℕ 32
  blake_slice bs =
      (from_preimage {P = List ℕ} {O = Array ℕ 32} x.Blake2s ⦃f = from_into ⦃i = x.into_array⦄⦄
        bs).hash

  abbrev pub blake_array : Array ℕ 32 → Array ℕ 32
  blake_array h =
      (from_preimage {P = Array ℕ 32} {O = Array ℕ 32} x.Blake2s ⦃f = from_into ⦃i = x.into_array⦄⦄
        h).hash

  -- A Merkle root representing the set of one account.
  abbrev pub one_member : ℕ → MerkleRoot ℕ (Array ℕ 32)
  one_member who = from_root (blake_array (blake_slice (to_be_bytes who)))

  module _ (anchors : StorageMap (AnchorKey (test_trait x)) (Revokable ℕ))
      (leaves : StorageMap (LeafKey (test_trait x)) UnixTimeSeconds) where
    abbrev pub tested : Pallet
    tested = test_pallet x anchors leaves

    abbrev pub Run : Type 0
    Run = Exec (State tested) Failed (Unit {0})

    abbrev pub execute_with : Run → Result Failed (Unit {0})
    execute_with run = (run (new_test_ext x anchors leaves)).0

    abbrev docs : MerkleRoot Document (Array ℕ 32)
    docs = from_root zeros

    abbrev doc : Hashed Document (Array ℕ 32)
    doc = prehashed zeros

    abbrev nobody : MerkleRoot ℕ (Array ℕ 32)
    nobody = from_root zeros

    abbrev auths : MerkleRoot ℕ (Array ℕ 32)
    auths = one_member 0

    abbrev is_at : MerkleRoot ℕ (Array ℕ 32) → Option (Revokable ℕ) → State tested → Bool
    is_at admins expected s = eq_anchor (lookup_anchor tested s admins docs) expected

    abbrev is_none : Option UnixTimeSeconds → Bool
    is_none none = true
    is_none (some end) = false

    unfoldable pub default_values_are_none : Run
    default_values_are_none = do
      assert (λ s. not (anchors.exists s.anchors (nobody, docs)))
      assert (λ s. eq_anchor (anchors.get s.anchors (nobody, docs)) none)
      assert (λ s. not (leaves.exists s.suspended_leaves (nobody, doc)))
      assert (λ s. is_none (leaves.get s.suspended_leaves (nobody, doc)))

    unfoldable pub test_anchor : Run
    test_anchor = do
      assert (is_at nobody none)
      unwrap (create_anchor tested (x.signed 0) nobody docs)
      unwrap_err (create_anchor tested (x.signed 0) nobody docs)
      unwrap_err (create_anchor tested (x.signed 1) nobody docs)
      assert (is_at nobody (some (not_revoked 1)))
      unwrap_err (revoke_anchor tested (x.signed 0) nobody docs [])

    -- The four runs of `revoke_anchor`.
    unfoldable pub test_revoke : Run
    test_revoke = do
      assert (is_at auths none)
      unwrap (create_anchor tested (x.signed 0) auths docs)
      assert (is_at auths (some (not_revoked 1)))
      unwrap (revoke_anchor tested (x.signed 0) auths docs [])
      assert (is_at auths (some revoked))

    unfoldable pub test_revoke_first : Run
    test_revoke_first = do
      unwrap (revoke_anchor tested (x.signed 0) auths docs [])
      unwrap_err (create_anchor tested (x.signed 0) auths docs)

    unfoldable pub test_revoke_twice : Run
    test_revoke_twice = do
      unwrap (revoke_anchor tested (x.signed 0) auths docs [])
      unwrap_err (revoke_anchor tested (x.signed 0) auths docs [])

    unfoldable pub test_revoke_two : Run
    test_revoke_two = do
      unwrap (revoke_anchor tested (x.signed 0) auths (from_root zeros) [])
      unwrap (revoke_anchor tested (x.signed 0) auths (from_root ones) [])

    abbrev suspended : UnixTimeSeconds → Bool → State tested → Bool
    suspended now expected s =
        let found = leaf_suspended_by tested s auths doc now in
        if expected then found else not found

    -- The three runs of `suspend_leaf`.
    unfoldable pub test_suspend : Run
    test_suspend = do
      assert (suspended 10 false)
      assert (suspended 11 false)
      unwrap (suspend_leaf tested (x.signed 0) auths doc [] 10)
      assert (suspended 10 true)
      assert (suspended 11 false)
      unwrap (suspend_leaf tested (x.signed 0) auths doc [] 11)
      assert (suspended 10 true)
      assert (suspended 11 true)
      assert (suspended 12 false)
      unwrap (suspend_leaf tested (x.signed 0) auths doc [] (2 ^ 64 - 1))
      assert (suspended 12 true)
      assert (suspended (2 ^ 64 - 1) true)

    unfoldable pub test_suspend_twice : Run
    test_suspend_twice = do
      unwrap (suspend_leaf tested (x.signed 0) auths doc [] 0)
      unwrap_err (suspend_leaf tested (x.signed 0) auths doc [] 0)

    unfoldable pub test_suspend_other : Run
    test_suspend_other = unwrap_err (suspend_leaf tested (x.signed 1) auths doc [] 0)

    abbrev pub test_run : Test → Run
    test_run absent = default_values_are_none
    test_run anchor = test_anchor
    test_run revoke = test_revoke
    test_run revoke_first = test_revoke_first
    test_run revoke_twice = test_revoke_twice
    test_run revoke_two = test_revoke_two
    test_run suspend = test_suspend
    test_run suspend_twice = test_suspend_twice
    test_run suspend_other = test_suspend_other
