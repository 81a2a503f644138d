-- ===== src/Tests/Toy.antt =====
-- A digest of 32 bytes that runs, and a chain over it: the values at which the tests and the
-- examples of the theorems stand.
use mathlib.Core.List.{append-nil, append_assoc}
use substrate_scaffold.Prelude.{
  ℕ, zero, suc, ◌+◌, ◌*◌, ◌≡◌, refl, ap, List, [], ◌∷◌, ◌++◌, length, Array, Array-ext, Option,
  none, some,
}
use substrate_scaffold.FromAlt.{Into, from_into}
use substrate_scaffold.Hasher.{Digest}
use substrate_scaffold.Result.{Result, ok, err}
use substrate_scaffold.Storage.{function_map}
use substrate_scaffold.Anchors.{Pallet, State, Revokable, UnixTimeSeconds}
use substrate_scaffold.Anchors.Effects.{anchor_key_discrete, leaf_key_discrete}
use substrate_scaffold.Runtime.{Externals, runtime, anchors_pallet}

-- The first `n` bytes of a text, and zeros where it is shorter.
abbrev pub fit : ℕ → List ℕ → List ℕ
fit zero bs = []
fit (suc n) [] = 0 ∷ fit n []
fit (suc n) (b ∷ bs) = b ∷ fit n bs

pub length-fit : (n : ℕ) (bs : List ℕ) → length (fit n bs) ≡ n
length-fit zero bs = refl
length-fit (suc n) [] = ap suc (length-fit n [])
length-fit (suc n) (b ∷ bs) = ap suc (length-fit n bs)

abbrev checksum : ℕ → List ℕ → ℕ
checksum acc [] = acc
checksum acc (b ∷ bs) = checksum (acc * 31 + b) bs

-- The state is the message so far. The output is its length, which is never 0, a checksum, and
-- its first bytes.
abbrev pub toy_digest : Digest
toy_digest = record {
  State = List ℕ;
  output_size = 32;
  new = [];
  input = λ s bs. s ++ bs;
  result = λ s. record {
    items = fit 32 (suc (length s) ∷ checksum 7 s ∷ s);
    size = length-fit 32 (suc (length s) ∷ checksum 7 s ∷ s);
  };
  input-nil = λ s. append-nil s;
  input-append = λ s a b. append_assoc s a b;
}

abbrev pub Output : Type 0
Output = Array ℕ 32

instance abbrev pub into_array : Into Output Output
into_array = record { into = λ x. x }

abbrev pub origin_signer : Option Output → Result ℕ Output
origin_signer none = err 0
origin_signer (some who) = ok who

-- An account is its 32 bytes, and an origin is signed or not.
pub same_items : (a b : Output) → a.items ≡ b.items → a ≡ b
same_items a b p = Array-ext p

abbrev pub toy : Externals
toy = record {
  Blake2s = toy_digest;
  into_array = into_array;
  items-into = λ x. refl;
  AccountId = Output;
  as_ref = λ a. a.items;
  length-as_ref = λ a. a.size;
  as_ref-injective = same_items;
  Origin = Option Output;
  SystemError = ℕ;
  ensure_signed = origin_signer;
}

abbrev pub chain : Pallet
chain =
    anchors_pallet toy (function_map {V = Revokable ℕ} (anchor_key_discrete (runtime toy)))
      (function_map {V = UnixTimeSeconds} (leaf_key_discrete (runtime toy)))

abbrev pub fresh : State chain
fresh = record { anchors = λ k. none; suspended_leaves = λ k. none; block_number = 1 }

abbrev pub block_of : ℕ → Output
block_of b = record { items = fit 32 (b ∷ []); size = length-fit 32 (b ∷ []) }
