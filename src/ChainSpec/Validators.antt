-- ===== src/ChainSpec/Validators.antt =====
-- chain_spec.rs with cli.rs, and vasaplatsen/README.md: from the name of a chain on the command line
-- to the validators that start it.
use mathlib.Core.List.{map, Memᴰ}
use mathlib.Core.List.Memᴰ as Mem
use substrate_scaffold.Prelude.{
  ◌^◌, ◌≡◌, ◌≢◌, refl, sym, ap, subst, ◌∙◌, String, some, Option, List, [], ◌∷◌, arith,
}
use substrate_scaffold.ChainSpec.{
  Externals, Alternative, development, local_testnet, ved, GenesisConfig, Authority, get_from_seed,
  get_account_id_from_seed, get_authority_keys_from_seed, testnet_genesis, all, genesis,
  endowed_development, endowed_local, ◌>>=◌,
}
use substrate_scaffold.ChainSpec.Genesis.{keys, >>=-eq-some}

-- The seeds of the initial authorities.
abbrev pub validators : Alternative → List String
validators development = "Alice" ∷ []
validators local_testnet = "Alice" ∷ "Bob" ∷ []
validators ved = []

module _ (x : Externals) where
  -- The account of the seed has its units.
  abbrev pub IsEndowed : GenesisConfig x → String → Type 0
  IsEndowed g s =
      (who : x.AccountId) × (get_account_id_from_seed x s ≡ some who)
      × Memᴰ (who, 2 ^ 60) g.balances

  abbrev pub EachEndowed : GenesisConfig x → List String → Type 0
  EachEndowed g [] = Unit
  EachEndowed g (s ∷ rest) = IsEndowed g s × EachEndowed g rest

  -- The authorities are the validators, in order, which are endowed, and the root is Alice.
  abbrev pub IsStarted : Alternative → GenesisConfig x → Type 0
  IsStarted a g =
      (all x (get_from_seed x.Aura) (validators a) ≡ some g.aura_authorities)
      × (all x (get_from_seed x.Grandpa) (validators a) ≡ some (keys g.grandpa_authorities))
      × EachEndowed g (validators a)
      × (get_account_id_from_seed x "Alice" ≡ some g.sudo_key)

  all-Memᴰ :
      {A : Type 0} (f : String → Option A) (names : List String) {l : List A} (s : String)
      → all x f names ≡ some l
      → Memᴰ s names
      → (a : A) × (f s ≡ some a) × Memᴰ a l
  unfolding all
  all-Memᴰ f [] s h m = elim m [ ]
  all-Memᴰ f (n ∷ names) {l} s h (Memᴰ.head p) =
      let (a, e, k) = >>=-eq-some (f n) _ h in
      let (r, d, q) = >>=-eq-some (all x f names) _ k in
      let same : a ∷ r ≡ l = ground arith in
      (a, ap f p ∙ e, subst (λ z. Memᴰ a z) same (Memᴰ.head refl))
  all-Memᴰ f (n ∷ names) {l} s h (Memᴰ.tail m) =
      let (a, e, k) = >>=-eq-some (f n) _ h in
      let (r, d, q) = >>=-eq-some (all x f names) _ k in
      let same : a ∷ r ≡ l = ground arith in
      let (b, g, i) = all-Memᴰ f names s d m in (b, g, subst (λ z. Memᴰ b z) same (Memᴰ.tail i))

  -- The accounts of the seeds `names` are endowed.
  testnet_genesis-IsEndowed :
      (authorities : List (Authority x)) (root : x.AccountId) (names : List String)
      {endowed : List x.AccountId} (s : String)
      → all x (get_account_id_from_seed x) names ≡ some endowed
      → Memᴰ s names
      → IsEndowed (testnet_genesis x authorities root endowed) s
  unfolding testnet_genesis
  testnet_genesis-IsEndowed authorities root names s h m =
      let (who, e, i) = all-Memᴰ (get_account_id_from_seed x) names s h m in
      (who, e, Mem.map (λ (k : x.AccountId). (k, 2 ^ 60)) i)

  keys_of_authorities :
      (seeds : List String) {l : List (Authority x)}
      → all x (get_authority_keys_from_seed x) seeds ≡ some l
      → (all x (get_from_seed x.Aura) seeds ≡ some (map (λ (a : Authority x). a.0) l))
        × (all x (get_from_seed x.Grandpa) seeds ≡ some (map (λ (a : Authority x). a.1) l))
  unfolding all get_authority_keys_from_seed
  keys_of_authorities [] h = (ground arith, ground arith)
  keys_of_authorities (s ∷ seeds) {l} h =
      let (a, e, k) = >>=-eq-some (get_authority_keys_from_seed x s) _ h in
      let (first, d, e') = >>=-eq-some (get_from_seed x.Aura s) _ e in
      let (second, d', e'') = >>=-eq-some (get_from_seed x.Grandpa s) _ e' in
      let (rest, q, k') = >>=-eq-some (all x (get_authority_keys_from_seed x) seeds) _ k in
      let (aura, grandpa) = keys_of_authorities seeds q in
      let pair : (first, second) ≡ a = ground arith in
      let same : a ∷ rest ≡ l = ground arith in
      (
        rw (d, aura)
            (ap some (
              ap (λ z. z.0 ∷ map (λ (a : Authority x). a.0) rest) pair
              ∙ ap (map (λ (a : Authority x). a.0)) same)),
        rw (d', grandpa)
            (ap some (
              ap (λ z. z.1 ∷ map (λ (a : Authority x). a.1) rest) pair
              ∙ ap (map (λ (a : Authority x). a.1)) same)),
      )

  keys_weighted :
      (l : List (Authority x))
      → keys (map (λ (a : Authority x). (a.1, 1)) l) ≡ map (λ (a : Authority x). a.1) l
  keys_weighted [] = refl
  keys_weighted (a ∷ l) = ap (λ z. a.1 ∷ z) (keys_weighted l)

  -- A genesis that is made of seeds.
  abbrev IsSeeded : List String → List String → GenesisConfig x → Type 0
  IsSeeded seeds names g =
      (all x (get_from_seed x.Aura) seeds ≡ some g.aura_authorities)
      × (all x (get_from_seed x.Grandpa) seeds ≡ some (keys g.grandpa_authorities))
      × ((s : String) → Memᴰ s names → IsEndowed g s)
      × (get_account_id_from_seed x "Alice" ≡ some g.sudo_key)

  seeds-IsSeeded :
      (seeds names : List String) {g : GenesisConfig x}
      → (do
        authorities ← all x (get_authority_keys_from_seed x) seeds
        root ← get_account_id_from_seed x "Alice"
        endowed ← all x (get_account_id_from_seed x) names
        some (testnet_genesis x authorities root endowed))
        ≡ some g
      → IsSeeded seeds names g
  unfolding testnet_genesis
  seeds-IsSeeded seeds names {g} h =
      let (authorities, d, h') = >>=-eq-some (all x (get_authority_keys_from_seed x) seeds) _ h in
      let (root, e, h'') = >>=-eq-some (get_account_id_from_seed x "Alice") _ h' in
      let (endowed, k, q) = >>=-eq-some (all x (get_account_id_from_seed x) names) _ h'' in
      let same : testnet_genesis x authorities root endowed ≡ g = ground arith in
      let (aura, grandpa) = keys_of_authorities seeds d in
      subst (IsSeeded seeds names) same (
        aura,
        grandpa ∙ ap some (sym (keys_weighted authorities)),
        λ s m. testnet_genesis-IsEndowed authorities root names s k m,
        e,
      )

  pub genesis-IsStarted :
      (a : Alternative) {g : GenesisConfig x} → a ≢ ved → genesis x a ≡ some g → IsStarted a g
  unfolding genesis
  genesis-IsStarted development ne h =
      let (aura, grandpa, endowed, root) =
        seeds-IsSeeded ("Alice" ∷ []) (endowed_development x) h in
      (aura, grandpa, (endowed "Alice" (Memᴰ.head refl), tt), root)
  genesis-IsStarted local_testnet ne h =
      let (aura, grandpa, endowed, root) =
        seeds-IsSeeded ("Alice" ∷ "Bob" ∷ []) (endowed_local x) h in
      (
        aura,
        grandpa,
        (endowed "Alice" (Memᴰ.head refl), (endowed "Bob" (Memᴰ.tail (Memᴰ.head refl)), tt)),
        root,
      )
  genesis-IsStarted ved ne h = absurd (ne refl)
