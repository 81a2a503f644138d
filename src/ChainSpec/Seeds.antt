-- ===== src/ChainSpec/Seeds.antt =====
-- chain_spec.rs: the panics in making a genesis from seed phrases.
use mathlib.Core.List.{Memᴰ}
use mathlib.Core.List.Memᴰ as Mem
use substrate_scaffold.Prelude.{◌≡◌, ◌≢◌, refl, String, Option, some, List, [], ◌∷◌}
use substrate_scaffold.ChainSpec.{
  Public, Externals, Alternative, development, local_testnet, ved, GenesisConfig, Authority,
  get_from_seed, get_account_id_from_seed, get_authority_keys_from_seed, testnet_genesis, all,
  genesis, endowed_development, endowed_local, ◌>>=◌,
}

-- Whatever is in the one list is in the other.
abbrev pub IsWithin : List String → List String → Type 0
IsWithin l m = (s : String) → Memᴰ s l → Memᴰ s m

nil-IsWithin : {m : List String} → IsWithin [] m
nil-IsWithin s h = elim h [ ]

cons-IsWithin : {a : String} {l m : List String} → Memᴰ a m → IsWithin l m → IsWithin (a ∷ l) m
cons-IsWithin h k s (Memᴰ.head e) = Mem.cast e h
cons-IsWithin h k s (Memᴰ.tail i) = k s i

module _ (x : Externals) where
  all-some :
      {A : Type 0} (f : String → Option A) (seeds : List String)
      → ((s : String) → Memᴰ s seeds → (a : A) × (f s ≡ some a))
      → (l : List A) × (all x f seeds ≡ some l)
  unfolding all
  all-some f [] valid = ([], refl)
  all-some f (s ∷ seeds) valid =
      let (a, e) = valid s (Memᴰ.head refl) in
      let (l, k) = all-some f seeds (λ t m. valid t (Memᴰ.tail m)) in (a ∷ l, rw (e, k))

  -- Every seed that the code names gives a key of the kind.
  abbrev pub AllSeeds : Public → Type 0
  AllSeeds k =
      (seed : String)
      → Memᴰ seed (endowed_local x)
      → (key : k.Key) × (get_from_seed k seed ≡ some key)

  seed_account :
      AllSeeds x.Sr25519
      → (s : String) → Memᴰ s (endowed_local x)
      → (a : x.AccountId) × (get_account_id_from_seed x s ≡ some a)
  unfolding get_account_id_from_seed
  seed_account sr s m = let (key, e) = sr s m in (x.into_account key, rw e)

  seed_authority :
      AllSeeds x.Aura
      → AllSeeds x.Grandpa
      → (s : String) → Memᴰ s (endowed_local x)
      → (a : Authority x) × (get_authority_keys_from_seed x s ≡ some a)
  unfolding get_authority_keys_from_seed
  seed_authority aura grandpa s m =
      let (a, e) = aura s m in let (g, k) = grandpa s m in ((a, g), rw (e, k))

  alice : Memᴰ "Alice" (endowed_local x)
  alice = Memᴰ.head refl

  bob : Memᴰ "Bob" (endowed_local x)
  bob = Memᴰ.tail (Memᴰ.head refl)

  alice_stash : Memᴰ "Alice//stash" (endowed_local x)
  alice_stash =
      Memᴰ.tail (Memᴰ.tail (Memᴰ.tail (Memᴰ.tail (Memᴰ.tail (Memᴰ.tail (Memᴰ.head refl))))))

  bob_stash : Memᴰ "Bob//stash" (endowed_local x)
  bob_stash =
      Memᴰ.tail
        (Memᴰ.tail (Memᴰ.tail (Memᴰ.tail (Memᴰ.tail (Memᴰ.tail (Memᴰ.tail (Memᴰ.head refl)))))))

  development-IsWithin : IsWithin (endowed_development x) (endowed_local x)
  development-IsWithin =
      cons-IsWithin alice
        (cons-IsWithin bob (cons-IsWithin alice_stash (cons-IsWithin bob_stash nil-IsWithin)))

  seeds_genesis :
      (authorities endowed : List String)
      → IsWithin authorities (endowed_local x)
      → IsWithin endowed (endowed_local x)
      → AllSeeds x.Aura
      → AllSeeds x.Grandpa
      → AllSeeds x.Sr25519
      → (g : GenesisConfig x) × ((do
        a ← all x (get_authority_keys_from_seed x) authorities
        r ← get_account_id_from_seed x "Alice"
        e ← all x (get_account_id_from_seed x) endowed
        some (testnet_genesis x a r e))
          ≡ some g)
  seeds_genesis authorities endowed near known aura grandpa sr =
      let (a, ea) =
        all-some (get_authority_keys_from_seed x) authorities
          (λ s m. seed_authority aura grandpa s (near s m)) in
      let (r, er) = seed_account sr "Alice" alice in
      let (e, ee) =
        all-some (get_account_id_from_seed x) endowed (λ s m. seed_account sr s (known s m)) in
      (testnet_genesis x a r e, rw (ea, er, ee))

  -- If every seed that the code names gives keys of each kind, the genesis of development and that of
  -- the local testnet do not panic.
  pub genesis-eq-some :
      (a : Alternative)
      → a ≢ ved
      → AllSeeds x.Aura
      → AllSeeds x.Grandpa
      → AllSeeds x.Sr25519
      → (g : GenesisConfig x) × (genesis x a ≡ some g)
  unfolding genesis
  genesis-eq-some development ne aura grandpa sr =
      seeds_genesis _ _ (cons-IsWithin alice nil-IsWithin) development-IsWithin aura grandpa sr
  genesis-eq-some local_testnet ne aura grandpa sr =
      seeds_genesis _ _ (cons-IsWithin alice (cons-IsWithin bob nil-IsWithin)) (λ s m. m) aura
        grandpa sr
  genesis-eq-some ved ne aura grandpa sr = absurd (ne refl)
