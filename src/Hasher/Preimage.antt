-- ===== src/Hasher/Preimage.antt =====
-- hasher.rs: what a value feeds to a digest is one string of bytes, whatever the digest.
use mathlib.Core.List.{append_assoc}
use substrate_scaffold.Prelude.{ℕ, ◌≡◌, refl, sym, ap, List, [], ◌∷◌, ◌++◌}
use substrate_scaffold.Hasher.{
  Digest, Hash, Hashed, FromOutput, hash_byte, hash_u8, hash_each, hash_slice, hash_array8,
  hash_array32, hash_pair, hash_pairs, hash_triple, hash_triples, hash_quadruple, hash_quadruples,
  from_preimage, hash_hashed, hash_of_hashed,
}

-- An implementation of `Hash` is given by the bytes that it feeds.
pub record Feeds {A : Type 0} (h : Hash A) : Type 1 where
  pub bytes : A → List ℕ
  pub hash-input : (d : Digest) (x : A) (s : d.State) → h.hash d x s ≡ d.input s (bytes x)

-- The digest of one string of bytes.
abbrev pub digest_bytes : {O : Type 0} (d : Digest) ⦃f : FromOutput d O⦄ → List ℕ → O
digest_bytes d ⦃f⦄ message = f.from_alt (d.result (d.input d.new message))

-- `from_preimage` is the digest of the preimage's bytes.
pub from_preimage-digest_bytes :
    {P O : Type 0} ⦃h : Hash P⦄ (d : Digest) ⦃f : FromOutput d O⦄ (b : Feeds h) (x : P)
    → (from_preimage {O = O} d x).hash ≡ digest_bytes d (b.bytes x)
unfolding from_preimage
from_preimage-digest_bytes d b x = rw (b.hash-input d x d.new)

pub byte_feeds : (d : Digest) (x : ℕ) (s : d.State) → hash_byte d x s ≡ d.input s (x ∷ [])
unfolding hash_byte
byte_feeds d x s = refl

abbrev pub feeds_u8 : Feeds hash_u8
feeds_u8 = record { bytes = λ x. x ∷ []; hash-input = byte_feeds }

module _ {A : Type 0} ⦃h : Hash A⦄ (b : Feeds h) where
  -- The bytes of a slice are those of its elements, in order.
  abbrev pub bytes_each : List A → List ℕ
  bytes_each [] = []
  bytes_each (x ∷ xs) = b.bytes x ++ bytes_each xs

  pub each_feeds :
      (d : Digest) (xs : List A) (s : d.State) → hash_each d xs s ≡ d.input s (bytes_each xs)
  unfolding hash_each
  each_feeds d [] s = sym (d.input-nil s)
  each_feeds d (x ∷ xs) s =
      rw (each_feeds d xs (h.hash d x s), b.hash-input d x s) (d.input-append s (b.bytes x) _)

  abbrev pub feeds_slice : Feeds (hash_slice {A = A})
  feeds_slice = record { bytes = bytes_each; hash-input = each_feeds }

  abbrev pub feeds_array8 : Feeds (hash_array8 {A = A})
  feeds_array8 = record {
    bytes = λ xs. bytes_each xs.items;
    hash-input = λ d xs s. each_feeds d xs.items s;
  }

  abbrev pub feeds_array32 : Feeds (hash_array32 {A = A})
  feeds_array32 = record {
    bytes = λ xs. bytes_each xs.items;
    hash-input = λ d xs s. each_feeds d xs.items s;
  }

module _ {A B : Type 0} ⦃h : Hash A⦄ ⦃k : Hash B⦄ (a : Feeds h) (b : Feeds k) where
  pub pair_feeds :
      (d : Digest) (x : A × B) (s : d.State)
      → hash_pair d x s ≡ d.input s (a.bytes x.0 ++ b.bytes x.1)
  unfolding hash_pair
  pair_feeds d (x, y) s =
      rw (b.hash-input d y _, a.hash-input d x s) (d.input-append s (a.bytes x) (b.bytes y))

  abbrev pub feeds_pairs : Feeds (hash_pairs {A = A} {B = B})
  feeds_pairs = record { bytes = λ x. a.bytes x.0 ++ b.bytes x.1; hash-input = pair_feeds }

module _ {A B C : Type 0} ⦃h : Hash A⦄ ⦃k : Hash B⦄ ⦃l : Hash C⦄ (a : Feeds h) (b : Feeds k)
    (c : Feeds l) where
  pub triple_feeds :
      (d : Digest) (x : A × B × C) (s : d.State)
      → hash_triple d x s ≡ d.input s (a.bytes x.0 ++ b.bytes x.1 ++ c.bytes x.2)
  unfolding hash_triple
  triple_feeds d (x, y, z) s =
      rw (c.hash-input d z _, b.hash-input d y _, a.hash-input d x s)
        (simp (d.input-append, append_assoc))

  abbrev pub feeds_triples : Feeds (hash_triples {A = A} {B = B} {C = C})
  feeds_triples = record {
    bytes = λ x. a.bytes x.0 ++ b.bytes x.1 ++ c.bytes x.2;
    hash-input = triple_feeds;
  }

module _ {A B C D : Type 0} ⦃h : Hash A⦄ ⦃k : Hash B⦄ ⦃l : Hash C⦄ ⦃m : Hash D⦄ (a : Feeds h)
    (b : Feeds k) (c : Feeds l) (e : Feeds m) where
  pub quadruple_feeds :
      (d : Digest) (x : A × B × C × D) (s : d.State)
      → hash_quadruple d x s ≡ d.input s (a.bytes x.0 ++ b.bytes x.1 ++ c.bytes x.2 ++ e.bytes x.3)
  unfolding hash_quadruple
  quadruple_feeds d (x, y, z, w) s =
      rw (e.hash-input d w _, c.hash-input d z _, b.hash-input d y _, a.hash-input d x s)
        (simp (d.input-append, append_assoc))

  abbrev pub feeds_quadruples : Feeds (hash_quadruples {A = A} {B = B} {C = C} {D = D})
  feeds_quadruples = record {
    bytes = λ x. a.bytes x.0 ++ b.bytes x.1 ++ c.bytes x.2 ++ e.bytes x.3;
    hash-input = quadruple_feeds;
  }

module _ {P O : Type 0} ⦃h : Hash O⦄ (b : Feeds h) where
  pub hashed_feeds :
      (d : Digest) (x : Hashed P O) (s : d.State) → hash_hashed d x s ≡ d.input s (b.bytes x.hash)
  unfolding hash_hashed
  hashed_feeds d x s = b.hash-input d x.hash s

  abbrev pub feeds_hashed : Feeds (hash_of_hashed {P = P} {O = O})
  feeds_hashed = record { bytes = λ x. b.bytes x.hash; hash-input = hashed_feeds }

-- A slice of bytes feeds itself.
pub bytes_each-u8 : (xs : List ℕ) → bytes_each feeds_u8 xs ≡ xs
bytes_each-u8 [] = refl
bytes_each-u8 (x ∷ xs) = ap (◌∷◌ x) (bytes_each-u8 xs)
