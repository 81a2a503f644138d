-- ===== src/ChainSpec/Genesis.antt =====
-- chain_spec.rs: what the genesis of each alternative holds.
use mathlib.Core.List.{Memᴰ, zip}
use substrate_scaffold.Prelude.{
  subst, ℕ, ◌+◌, ◌*◌, ◌^◌, ◌≡◌, ◌≢◌, refl, sym, ap, subst, ◌∙◌, String, Option, none, some, List,
  [], ◌∷◌, map, length, arith,
}
use substrate_scaffold.ChainSpec.{
  Externals, Alternative, development, local_testnet, ved, GenesisConfig, Authority,
  get_account_id_from_seed, get_authority_keys_from_seed, account_id_from_ss58, authority_from_ss58,
  testnet_genesis, all, genesis, ◌>>=◌,
}

abbrev pub keys : {A : Type 0} → List (A × ℕ) → List A
keys [] = []
keys ((a, b) ∷ rest) = a ∷ keys rest

abbrev pub total : {A : Type 0} → List (A × ℕ) → ℕ
total [] = 0
total ((a, b) ∷ rest) = b + total rest

pub total_endowed :
    {A : Type 0} (l : List A) → total (map (λ (k : A). (k, 2 ^ 60)) l) ≡ length l * 2 ^ 60
total_endowed [] = refl
total_endowed (a ∷ l) = omega (arith, total_endowed l)

keys_endowed : {A : Type 0} (n : ℕ) (l : List A) → keys (map (λ (k : A). (k, n)) l) ≡ l
keys_endowed n [] = refl
keys_endowed n (a ∷ l) = ap (◌∷◌ a) (keys_endowed n l)

paired :
    {A B : Type 0} (l : List (A × B))
    → zip (map (λ (a : A × B). a.0) l) (keys (map (λ (a : A × B). (a.1, 1)) l)) ≡ l
unfolding zip
paired [] = refl
paired (a ∷ l) = ap (◌∷◌ a) (paired l)

-- Every authority has the weight 1.
abbrev pub IsWeighted : {A : Type 0} → List (A × ℕ) → Type 0
IsWeighted [] = Unit
IsWeighted ((a, b) ∷ rest) = (b ≡ 1) × IsWeighted rest

weighted : {A B : Type 0} (l : List (A × B)) → IsWeighted (map (λ (a : A × B). (a.1, 1)) l)
weighted [] = tt
weighted (a ∷ l) = (refl, weighted l)

pub >>=-eq-some {ℓ κ} :
    {A : Type ℓ} {B : Type κ} (m : Option A) (f : A → Option B) {b : B}
    → (m >>= f) ≡ some b
    → (a : A) × (m ≡ some a) × (f a ≡ some b)
>>=-eq-some none f h = cc
>>=-eq-some (some a) f h = (a, refl, h)

module _ (x : Externals) where
  -- A genesis pairs each Aura authority with its Grandpa authority, in order and with the weight
  -- 1; it indexes and endows the same accounts, in order, and its whole issuance is 2 ^ 60 for
  -- each.
  pub testnet_genesis_lem :
      (authorities : List (Authority x)) (root : x.AccountId) (endowed : List x.AccountId)
      → let g = testnet_genesis x authorities root endowed in
        (zip g.aura_authorities (keys g.grandpa_authorities) ≡ authorities)
        × IsWeighted g.grandpa_authorities
        × (keys g.balances ≡ g.indices)
        × (g.indices ≡ endowed)
        × (total g.balances ≡ length endowed * 2 ^ 60)
  unfolding testnet_genesis
  testnet_genesis_lem authorities root endowed = (
    paired authorities,
    weighted authorities,
    keys_endowed (2 ^ 60) endowed,
    refl,
    total_endowed endowed,
  )

  all-cons :
      {A : Type 0} (f : String → Option A) (s : String) (rest : List String) {l : List A}
      → all x f (s ∷ rest) ≡ some l
      → (a : A) × (r : List A) × (f s ≡ some a) × (l ≡ a ∷ r)
  unfolding all
  all-cons f s rest h =
      let (a, e, k) = >>=-eq-some (f s) _ h in
      let (r, d, q) = >>=-eq-some (all x f rest) _ k in (a, r, e, ground arith)

  -- Where the root is the first seed's account, that account is endowed.
  root_endowed :
      (authorities : List (Authority x)) (seed : String) (rest : List String) {root : x.AccountId}
      {endowed : List x.AccountId}
      → get_account_id_from_seed x seed ≡ some root
      → all x (get_account_id_from_seed x) (seed ∷ rest) ≡ some endowed
      → let g = testnet_genesis x authorities root endowed in
        (get_account_id_from_seed x seed ≡ some g.sudo_key) × Memᴰ g.sudo_key (keys g.balances)
  unfolding testnet_genesis
  root_endowed authorities seed rest {root} {endowed} e h =
      let (a, r, d, q) = all-cons (get_account_id_from_seed x) seed rest h in
      (e, rw (keys_endowed (2 ^ 60) endowed, q) (Memᴰ.head (ground arith)))

  sudo_of :
      (seeds : List String) (rest : List String) {g : GenesisConfig x}
      → (do
        authorities ← all x (get_authority_keys_from_seed x) seeds
        root ← get_account_id_from_seed x "Alice"
        endowed ← all x (get_account_id_from_seed x) ("Alice" ∷ rest)
        some (testnet_genesis x authorities root endowed))
        ≡ some g
      → (get_account_id_from_seed x "Alice" ≡ some g.sudo_key) × Memᴰ g.sudo_key (keys g.balances)
  sudo_of seeds rest {g} h =
      let (authorities, d, h') = >>=-eq-some (all x (get_authority_keys_from_seed x) seeds) _ h in
      let (root, e, h'') = >>=-eq-some (get_account_id_from_seed x "Alice") _ h' in
      let (endowed, k, q) =
        >>=-eq-some (all x (get_account_id_from_seed x) ("Alice" ∷ rest)) _ h'' in
      let same : testnet_genesis x authorities root endowed ≡ g = ground arith in
      subst
        (λ c.
          (get_account_id_from_seed x "Alice" ≡ some c.sudo_key)
          × Memᴰ c.sudo_key (keys c.balances))
        same (root_endowed authorities "Alice" rest e k)

  -- The root account of the development and of the local genesis, where making it does not panic,
  -- is Alice's, and is endowed.
  sudo_endowed :
      (a : Alternative) {g : GenesisConfig x}
      → a ≢ ved
      → genesis x a ≡ some g
      → (get_account_id_from_seed x "Alice" ≡ some g.sudo_key) × Memᴰ g.sudo_key (keys g.balances)
  unfolding genesis
  sudo_endowed development ne h = sudo_of ("Alice" ∷ []) _ h
  sudo_endowed local_testnet ne h = sudo_of ("Alice" ∷ "Bob" ∷ []) _ h
  sudo_endowed ved ne h = absurd (ne refl)

  all_one :
      {A : Type 0} (f : String → Option A) (s : String) {l : List A}
      → all x f (s ∷ []) ≡ some l
      → (a : A) × (f s ≡ some a) × (l ≡ a ∷ [])
  unfolding all
  all_one f s h = let (a, e, k) = >>=-eq-some (f s) _ h in (a, e, ground arith)

  member_of_one : {A : Type 0} {a b : A} → Memᴰ a (b ∷ []) → a ≡ b
  member_of_one (Memᴰ.head e) = e
  member_of_one (Memᴰ.tail m) = elim m [ ]

  only_endowed :
      (authorities : List (Authority x)) (root a : x.AccountId)
      → let g = testnet_genesis x authorities root (a ∷ []) in
        Memᴰ g.sudo_key (keys g.balances) → root ≡ a
  unfolding testnet_genesis
  only_endowed authorities root a m = member_of_one m

  -- In the genesis of Ved the root account is endowed only if the two addresses that the code
  -- gives for the root and for the endowed account stand for one account.
  sudo_not_endowed :
      {g : GenesisConfig x}
      → genesis x ved ≡ some g
      → Memᴰ g.sudo_key (keys g.balances)
      → account_id_from_ss58 x "5Groot2sFDCh8Vo9G8kzGmjEK6tFJvYZSJZMQMoJXn7M1179"
        ≡ account_id_from_ss58 x "5DtressiVt3ZHgdAe3HyPrqmPAxHQSaNKkji9ACjriWYon6Z"
  unfolding genesis
  sudo_not_endowed {g} h m =
      let (a, ea, h1) = >>=-eq-some (authority_from_ss58 x _ _) _ h in
      let (b, eb, h2) = >>=-eq-some (authority_from_ss58 x _ _) _ h1 in
      let (root, er, h3) = >>=-eq-some (account_id_from_ss58 x _) _ h2 in
      let (endowed, ee, h4) = >>=-eq-some (all x (account_id_from_ss58 x) _) _ h3 in
      let (only, eo, one) = all_one (account_id_from_ss58 x) _ ee in
      let same : g ≡ testnet_genesis x (a ∷ b ∷ []) root (only ∷ []) = ground arith in
      let same_account =
        only_endowed (a ∷ b ∷ []) root only
          (subst (λ c. Memᴰ c.sudo_key (keys c.balances)) same m) in
      er ∙ ap some same_account ∙ sym eo
