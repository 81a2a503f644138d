-- ===== src/Hasher/Concat.antt =====
-- hasher.rs: how tuples of slices are hashed, which `test_cat_hash` of merkle.rs samples, and the
-- hashes of preimages of different types.
use substrate_scaffold.Prelude.{◌≡◌, ◌∙◌, ap, ℕ, List, ◌++◌}
use substrate_scaffold.Hasher.{
  Digest, Hash, FromOutput, hash_u8, hash_slice, hash_pairs, hash_triples, hash_quadruples,
  from_preimage,
}
use substrate_scaffold.Hasher.Preimage.{
  Feeds, from_preimage-digest_bytes, digest_bytes, feeds_u8, feeds_slice, feeds_pairs,
  feeds_triples, feeds_quadruples, bytes_each-u8,
}

-- Two preimages, of any two types, that feed the same bytes have the same hash.
pub hash-same_bytes :
    {P Q O : Type 0} ⦃h : Hash P⦄ ⦃k : Hash Q⦄ (d : Digest) ⦃f : FromOutput d O⦄ (a : Feeds h)
    (b : Feeds k) (x : P) (y : Q)
    → a.bytes x ≡ b.bytes y
    → (from_preimage {O = O} d x).hash ≡ (from_preimage {O = O} d y).hash
hash-same_bytes d a b x y p =
    rw (from_preimage-digest_bytes d a x, from_preimage-digest_bytes d b y, p)

module _ {O : Type 0} (d : Digest) ⦃f : FromOutput d O⦄ where
  -- The hash of a slice of bytes.
  abbrev pub slice_hash : List ℕ → O
  slice_hash bs = (from_preimage {P = List ℕ} {O = O} d bs).hash

  -- The hash of a slice of bytes is the digest of the bytes, and tuples have no separators: a
  -- pair, a triple or a quadruple of slices has the hash of the slices put together, in order.
  pub slices_unseparated :
      (a b c e : List ℕ)
      → (slice_hash a ≡ digest_bytes d a)
        × ((from_preimage {P = List ℕ × List ℕ} {O = O} d (a, b)).hash ≡ slice_hash (a ++ b))
        × ((from_preimage {P = List ℕ × List ℕ × List ℕ} {O = O} d (a, b, c)).hash
            ≡ slice_hash (a ++ b ++ c))
        × ((from_preimage {P = List ℕ × List ℕ × List ℕ × List ℕ} {O = O} d (a, b, c, e)).hash
            ≡ slice_hash (a ++ b ++ c ++ e))
  slices_unseparated a b c e =
      let s = feeds_slice feeds_u8 in
      let own = bytes_each-u8 in
      (
        from_preimage-digest_bytes d s a ∙ ap (digest_bytes d) (own a),
        hash-same_bytes d (feeds_pairs s s) s (a, b) (a ++ b) (simp own),
        hash-same_bytes d (feeds_triples s s s) s (a, b, c) (a ++ b ++ c) (simp own),
        hash-same_bytes d (feeds_quadruples s s s s) s (a, b, c, e) (a ++ b ++ c ++ e) (simp own),
      )
