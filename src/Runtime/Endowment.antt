-- ===== src/Runtime/Endowment.antt =====
-- lib.rs with chain_spec.rs: the balances that a genesis endows, against the runtime's constants.
use substrate_scaffold.Prelude.{
  ℕ, suc, ◌*◌, ◌^◌, ◌≤◌, ◌<◌, ◌≡◌, sym, ap, subst, ◌∙◌, String, Option, some, List, [], ◌∷◌, map,
  length, arith,
}
use substrate_scaffold.ChainSpec.{
  endowed_local, endowed_development, Externals, Alternative, development, local_testnet, ved,
  GenesisConfig, Authority, get_account_id_from_seed, get_authority_keys_from_seed,
  account_id_from_ss58, authority_from_ss58, testnet_genesis, all, genesis, ◌>>=◌,
  endowed_development, endowed_local,
}
use substrate_scaffold.ChainSpec.Genesis.{total, total_endowed, >>=-eq-some}
use substrate_scaffold.Runtime.{existential_deposit}

-- How many accounts an alternative endows.
abbrev pub endowments : Alternative → ℕ
endowments development = 4
endowments local_testnet = 12
endowments ved = 1

-- No balance is below the deposit that keeps an account.
abbrev pub IsKept : {A : Type 0} → List (A × ℕ) → Type 0
IsKept [] = Unit
IsKept ((a, b) ∷ rest) = (existential_deposit ≤ b) × IsKept rest

endowed-IsKept : {A : Type 0} (l : List A) → IsKept (map (λ (k : A). (k, 2 ^ 60)) l)
endowed-IsKept [] = tt
endowed-IsKept (a ∷ l) = (omega arith, endowed-IsKept l)

module _ (x : Externals) where
  -- The issuance is 2 ^ 60 for each account, and fits
  -- a `u64`.
  abbrev pub IsFunded : ℕ → GenesisConfig x → Type 0
  IsFunded n g = IsKept g.balances × (total g.balances ≡ n * 2 ^ 60) × (total g.balances < 2 ^ 64)

  all-length :
      {A : Type 0} (f : String → Option A) (names : List String) {l : List A}
      → all x f names ≡ some l
      → length l ≡ length names
  unfolding all
  all-length {A} f [] {l} h = ground arith
  all-length {A} f (s ∷ names) {l} h =
      let (a, e, k) = >>=-eq-some (f s) _ h in
      let (r, d, q) = >>=-eq-some (all x f names) _ k in
      let same : a ∷ r ≡ l = ground arith in ap length (sym same) ∙ ap suc (all-length f names d)

  funded :
      (n : ℕ) (authorities : List (Authority x)) (root : x.AccountId) (endowed : List x.AccountId)
      → length endowed ≡ n
      → n ≤ 12
      → IsFunded n (testnet_genesis x authorities root endowed)
  unfolding testnet_genesis
  funded n authorities root endowed e h = (
    endowed-IsKept endowed,
    total_endowed endowed ∙ ap (λ m. m * 2 ^ 60) e,
    omega (arith, total_endowed endowed),
  )

  of_seeds :
      (seeds names : List String) {g : GenesisConfig x}
      → length names ≤ 12
      → (do
        authorities ← all x (get_authority_keys_from_seed x) seeds
        root ← get_account_id_from_seed x "Alice"
        endowed ← all x (get_account_id_from_seed x) names
        some (testnet_genesis x authorities root endowed))
        ≡ some g
      → IsFunded (length names) g
  of_seeds seeds names {g} short h =
      let (authorities, d, h') = >>=-eq-some (all x (get_authority_keys_from_seed x) seeds) _ h in
      let (root, e, h'') = >>=-eq-some (get_account_id_from_seed x "Alice") _ h' in
      let (endowed, k, q) = >>=-eq-some (all x (get_account_id_from_seed x) names) _ h'' in
      let same : testnet_genesis x authorities root endowed ≡ g = ground arith in
      subst (IsFunded (length names)) same
        (funded (length names) authorities root endowed (all-length _ names k) short)

  -- Whatever the keys are: each alternative's genesis, where making it does not panic, endows its
  -- accounts with no balance that is below the runtime's existential deposit; its issuance is
  -- 2 ^ 60 for each of the 4, 12 or 1 accounts, and is less than 2 ^ 64.
  pub genesis-IsFunded :
      (a : Alternative) {g : GenesisConfig x} → genesis x a ≡ some g → IsFunded (endowments a) g
  unfolding genesis
  genesis-IsFunded development h = of_seeds ("Alice" ∷ []) (endowed_development x) (omega arith) h
  genesis-IsFunded local_testnet h =
      of_seeds ("Alice" ∷ "Bob" ∷ []) (endowed_local x) (omega arith) h
  genesis-IsFunded ved {g} h =
      let (a, ea, h1) = >>=-eq-some (authority_from_ss58 x _ _) _ h in
      let (b, eb, h2) = >>=-eq-some (authority_from_ss58 x _ _) _ h1 in
      let (root, er, h3) = >>=-eq-some (account_id_from_ss58 x _) _ h2 in
      let (endowed, ee, h4) = >>=-eq-some (all x (account_id_from_ss58 x) _) _ h3 in
      let same : testnet_genesis x (a ∷ b ∷ []) root endowed ≡ g = ground arith in
      subst (IsFunded 1) same (funded 1 (a ∷ b ∷ []) root endowed (all-length _ _ ee) (omega arith))
