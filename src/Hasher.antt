-- ===== src/Hasher.antt =====
-- vasaplatsen/runtime/src/revocable_anchors/hasher.rs: the `Hash` trait, which feeds a value to a
-- digest, its implementations, and `Hashed`. `&A` is `A` here, so its implementation is none.
pub mod Preimage
pub mod Concat
pub mod Fixed
use substrate_scaffold.Prelude.{ℕ, ◌≡◌, List, [], ◌∷◌, ◌++◌, Array}
use substrate_scaffold.FromAlt.{FromAlt}

-- The crate `digest`: a hash function over a stream of bytes. That a message may be given in
-- pieces, an empty one among them, is what its documentation says of `input`.
pub record Digest : Type 1 where
  pub State : Type 0
  pub output_size : ℕ
  pub new : State
  pub input : State → List ℕ → State
  pub result : State → Array ℕ output_size
  pub input-nil : (s : State) → input s [] ≡ s
  pub input-append : (s : State) (a b : List ℕ) → input (input s a) b ≡ input s (a ++ b)

-- `trait Hash`
pub record Hash (A : Type 0) : Type 1 where
  pub hash : (d : Digest) → A → d.State → d.State

-- `impl Hash for u8`
unfoldable pub hash_byte : (d : Digest) → ℕ → d.State → d.State
hash_byte d b hasher = d.input hasher (b ∷ [])

instance abbrev pub hash_u8 : Hash ℕ
hash_u8 = record { hash = hash_byte }

module _ {A : Type 0} ⦃h : Hash A⦄ where
  -- The loop of `impl<T: Hash> Hash for [T]`.
  unfoldable pub hash_each : (d : Digest) → List A → d.State → d.State
  hash_each d [] hasher = hasher
  hash_each d (s ∷ rest) hasher = hash_each d rest (h.hash d s hasher)

  instance abbrev pub hash_slice : Hash (List A)
  hash_slice = record { hash = hash_each }

  -- `[T; 8]` and `[T; 32]` hash as the slices that they are.
  instance abbrev pub hash_array8 : Hash (Array A 8)
  hash_array8 = record { hash = λ d xs hasher. hash_each d xs.items hasher }

  instance abbrev pub hash_array32 : Hash (Array A 32)
  hash_array32 = record { hash = λ d xs hasher. hash_each d xs.items hasher }

-- `impl Hash for (A, B)`
module _ {A B : Type 0} ⦃h : Hash A⦄ ⦃k : Hash B⦄ where
  unfoldable pub hash_pair : (d : Digest) → A × B → d.State → d.State
  hash_pair d (a, b) hasher = k.hash d b (h.hash d a hasher)

  instance abbrev pub hash_pairs : Hash (A × B)
  hash_pairs = record { hash = hash_pair }

-- `impl Hash for (A, B, C)`
module _ {A B C : Type 0} ⦃h : Hash A⦄ ⦃k : Hash B⦄ ⦃l : Hash C⦄ where
  unfoldable pub hash_triple : (d : Digest) → A × B × C → d.State → d.State
  hash_triple d (a, b, c) hasher = l.hash d c (k.hash d b (h.hash d a hasher))

  instance abbrev pub hash_triples : Hash (A × B × C)
  hash_triples = record { hash = hash_triple }

-- `impl Hash for (A, B, C, D)`
module _ {A B C D : Type 0} ⦃h : Hash A⦄ ⦃k : Hash B⦄ ⦃l : Hash C⦄ ⦃m : Hash D⦄ where
  unfoldable pub hash_quadruple : (d : Digest) → A × B × C × D → d.State → d.State
  hash_quadruple d (a, b, c, e) hasher = m.hash d e (l.hash d c (k.hash d b (h.hash d a hasher)))

  instance abbrev pub hash_quadruples : Hash (A × B × C × D)
  hash_quadruples = record { hash = hash_quadruple }

-- The output of a hash, marked with the type of what was hashed; the mark holds no value.
pub record Hashed (Preimage Output : Type 0) : Type 0 where
  pub hash : Output

unfoldable pub prehashed : {P O : Type 0} → O → Hashed P O
prehashed hash = record { hash = hash }

-- What `from_alt` has to convert: the digest's output, an array of bytes.
abbrev pub FromOutput : Digest → Type 0 → Type 0
FromOutput d O = FromAlt (Array ℕ d.output_size) O

unfoldable pub from_preimage :
    {P O : Type 0} ⦃h : Hash P⦄ (d : Digest) ⦃f : FromOutput d O⦄ → P → Hashed P O
unfolding prehashed
from_preimage ⦃h⦄ d ⦃f⦄ preimage =
    let hasher = h.hash d preimage d.new in prehashed (f.from_alt (d.result hasher))

-- `impl Hash for Hashed<P, O>`
module _ {P O : Type 0} ⦃h : Hash O⦄ where
  unfoldable pub hash_hashed : (d : Digest) → Hashed P O → d.State → d.State
  hash_hashed d x hasher = h.hash d x.hash hasher

  instance abbrev pub hash_of_hashed : Hash (Hashed P O)
  hash_of_hashed = record { hash = hash_hashed }
