-- ===== src/Runtime/Binding.antt =====
-- lib.rs with merkle.rs: what the root of a set of administrators says of its accounts.
use mathlib.Core.List.{Memᴰ, map-append}
use mathlib.Core.List.Memᴰ as Mem
use substrate_scaffold.Prelude.{
  Array, ℕ, ◌≡◌, refl, sym, ap, ◌∙◌, ◌⊎◌, inl, inr, List, ◌++◌, map, eq_array, eq_nat,
}
use substrate_scaffold.FromAlt.{from_into}
use substrate_scaffold.Hasher.{FromOutput, hash_u8, hash_array32}
use substrate_scaffold.Hasher.Fixed.{fixed_array32}
use substrate_scaffold.Merkle.Tree.{MTree, leaf, tee, root_hash}
use substrate_scaffold.Merkle.Leaves.{leaf_list}
use substrate_scaffold.Merkle.Extract.{Collision, same_or_Collision, wider}
use substrate_scaffold.Merkle.Binding.{root_hash-injective}
use substrate_scaffold.Runtime.{Externals}
use substrate_scaffold.Runtime.Members.{
  account_hash, account_hash-digest_bytes, hashed, group_queries,
}

module _ (x : Externals) where
  instance abbrev blake_output : FromOutput x.Blake2s (Array ℕ 32)
  blake_output = from_into ⦃i = x.into_array⦄

  -- A string hashed for the root of the one and a string hashed for that of the other collide.
  abbrev pub Shared : MTree x.AccountId → MTree x.AccountId → Type 0
  Shared t u = Collision x.Blake2s fixed_array32 (group_queries x t) (group_queries x u)

  Accounts : MTree x.AccountId → MTree x.AccountId → Type 0
  Accounts t u =
      Collision x.Blake2s fixed_array32 (map x.as_ref (leaf_list t)) (map x.as_ref (leaf_list u))

  map-left :
      (a : List ℕ) (xs ys : List x.AccountId)
      → Memᴰ a (map x.as_ref xs)
      → Memᴰ a (map x.as_ref (xs ++ ys))
  map-left a xs ys m = rw map-append (Mem.append_left _ m)

  map-right :
      (a : List ℕ) (xs ys : List x.AccountId)
      → Memᴰ a (map x.as_ref ys)
      → Memᴰ a (map x.as_ref (xs ++ ys))
  map-right a xs ys m = rw map-append (Mem.append_right _ m)

  hashed-injective : (t u : MTree x.AccountId) → hashed x t ≡ hashed x u → (t ≡ u) ⊎ Accounts t u
  unfolding Accounts
  hashed-injective (leaf a) (leaf b) p =
      let met : account_hash x a ≡ account_hash x b = cc in
      let digests = sym (account_hash-digest_bytes x a) ∙ met ∙ account_hash-digest_bytes x b in
      elim (same_or_Collision x.Blake2s fixed_array32 (x.as_ref a) (x.as_ref b) (Memᴰ.head refl)
        (Memᴰ.head refl) digests) [
          | inl e ↦ inl (ap leaf (x.as_ref-injective a b e))
          | inr c ↦ inr c
        ]
  hashed-injective (leaf a) (tee m s) p = cc
  hashed-injective (tee l r) (leaf b) p = cc
  hashed-injective (tee l r) (tee m s) p = elim (hashed-injective l m (cc)) [
    | inr c ↦ inr (
        wider x.Blake2s fixed_array32 (λ a i. map-left a (leaf_list l) _ i)
          (λ a i. map-left a (leaf_list m) _ i) c)
    | inl el ↦ elim (hashed-injective r s (cc)) [
      | inr c ↦ inr (
          wider x.Blake2s fixed_array32 (λ a i. map-right a (leaf_list l) _ i)
            (λ a i. map-right a (leaf_list m) _ i) c)
      | inl er ↦ inl (λ i. tee (el i) (er i))
    ]
  ]

  -- The root of a tree of accounts binds it: two trees of accounts with one root are the same tree;
  -- or else a string hashed for the one and a string hashed for the other are a collision of
  -- Blake2s.
  pub group-injective :
      (t u : MTree x.AccountId)
      → root_hash x.Blake2s (hashed x t) ≡ root_hash x.Blake2s (hashed x u)
      → (t ≡ u) ⊎ Shared t u
  unfolding Accounts
  group-injective t u p =
      elim (root_hash-injective x.Blake2s fixed_array32 (hashed x t) (hashed x u) p) [
        | inr c ↦ inr (
            wider x.Blake2s fixed_array32 (λ a i. Mem.append_right _ i)
              (λ a i. Mem.append_right _ i) c)
        | inl e ↦ elim (hashed-injective t u e) [
          | inl same ↦ inl same
          | inr c ↦ inr (
              wider x.Blake2s fixed_array32 (λ a i. Mem.append_left _ i)
                (λ a i. Mem.append_left _ i) c)
        ]
      ]
