-- ===== src/Runtime/Accounts.antt =====
-- lib.rs: the hash that the runtime takes of an account.
use substrate_scaffold.Prelude.{ℕ, ◌≡◌, refl, List, Array, eq_nat, eq_array}
use substrate_scaffold.FromAlt.{from_into}
use substrate_scaffold.Hasher.{hash_slice, hash_u8, hash_array32, from_preimage, hash_of_hashed}
use substrate_scaffold.Anchors.{hash_account_id}
use substrate_scaffold.Runtime.{Externals, runtime, hash_account_bytes}

module _ (x : Externals) where
  -- `blake(p)`, for a slice of bytes.
  abbrev pub blake_bytes : List ℕ → Array ℕ 32
  blake_bytes bs =
      (from_preimage {P = List ℕ} {O = Array ℕ 32} x.Blake2s ⦃f = from_into ⦃i = x.into_array⦄⦄
        bs).hash

  abbrev pub blake_hash : Array ℕ 32 → Array ℕ 32
  blake_hash h =
      (from_preimage {P = Array ℕ 32} {O = Array ℕ 32} x.Blake2s ⦃f = from_into ⦃i = x.into_array⦄⦄
        h).hash

  -- The runtime hashes an account as the slice of its 32 bytes.
  pub hash_account_id-blake_bytes :
      (who : x.AccountId) → (hash_account_id (runtime x) who).hash ≡ blake_bytes (x.as_ref who)
  unfolding hash_account_id hash_account_bytes from_preimage
  hash_account_id-blake_bytes who = refl
