-- ===== src/Storage.antt =====
-- `frame_support`: a storage map, which `decl_storage!` declares and which the pallet uses through
-- `get`, `exists` and `insert`. Its laws are what the documentation of `StorageMap` says.
use mathlib.Core.Logic.{ite, if_pos, if_neg}
use substrate_scaffold.Prelude.{refl, subst, ◌≡◌, ◌≢◌, Bool, true, false, Option, none, some}

abbrev pub is_some {ℓ} : {A : Type ℓ} → Option A → Bool
is_some none = false
is_some (some a) = true

pub record StorageMap (K V : Type 0) : Type 1 where
  pub Store : Type 0
  pub empty : Store
  pub get : Store → K → Option V
  pub exists : Store → K → Bool
  pub insert : Store → K → V → Store
  pub get-empty : (k : K) → get empty k ≡ none
  pub exists-get : (s : Store) (k : K) → exists s k ≡ is_some (get s k)
  pub get-insert_self : (s : Store) (k : K) (v : V) → get (insert s k v) k ≡ some v
  pub get-insert_ne : (s : Store) (k j : K) (v : V) → k ≢ j → get (insert s k v) j ≡ get s j

-- A map that meets the laws: a function, over keys whose equality is decided.
abbrev pub function_map : {K V : Type 0} → Discrete K → StorageMap K V
function_map {K} {V} dec = record {
  Store = K → Option V;
  empty = λ k. none;
  get = λ s k. s k;
  exists = λ s k. is_some (s k);
  insert = λ s k v j. ite (dec k j) (some v) (s j);
  get-empty = λ k. refl;
  exists-get = λ s k. refl;
  get-insert_self = λ s k v. if_pos (dec k k) refl _ _;
  get-insert_ne = λ s k j v h. if_neg (dec k j) h _ _;
}

-- One equation for a read after a write, over keys whose equality is decided.
pub get-insert :
    {K V : Type 0} (m : StorageMap K V) (dec : Discrete K) (s : m.Store) (k : K) (v : V) (j : K)
    → m.get (m.insert s k v) j ≡ ite (dec k j) (some v) (m.get s j)
get-insert m dec s k v j = elim (dec k j) [
  | yes e ↦
      rw (if_pos _ e) (subst (λ i. m.get (m.insert s k v) i ≡ some v) e (m.get-insert_self s k v))
  | no e ↦ rw (if_neg _ e) (m.get-insert_ne s k j v e)
]

-- The laws by which a program on a map that starts empty is run.
module _ {K V : Type 0} (m : StorageMap K V) where
  pub read_empty : (k : K) → m.get m.empty k ≡ none
  read_empty = m.get-empty

  pub exists-read : (s : m.Store) (k : K) → m.exists s k ≡ is_some (m.get s k)
  exists-read = m.exists-get

  pub read-insert_self : (s : m.Store) (k : K) (v : V) → m.get (m.insert s k v) k ≡ some v
  read-insert_self = m.get-insert_self

pub ruleset storage_laws = (read_empty, exists-read, read-insert_self)
