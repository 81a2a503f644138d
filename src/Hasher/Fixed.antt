-- ===== src/Hasher/Fixed.antt =====
-- hasher.rs: outputs that feed a fixed number of bytes, and all different ones, as `[u8; 32]`.
use substrate_scaffold.Prelude.{
  ℕ, ◌≡◌, ◌≢◌, ◌<◌, ◌++◌, ◌∙◌, ap, length, length-append, append-cancel, Array, Array-ext, arith,
  sym,
}
use substrate_scaffold.Hasher.{Hash, hash_u8, hash_array32}
use substrate_scaffold.Hasher.Preimage.{Feeds, feeds_u8, feeds_array32, bytes_each-u8}

pub record Fixed {O : Type 0} (h : Hash O) : Type 1 where
  pub feeds : Feeds h
  pub width : ℕ
  pub width_pos : 0 < width
  pub length-bytes : (x : O) → length (feeds.bytes x) ≡ width
  pub bytes-injective : (x y : O) → feeds.bytes x ≡ feeds.bytes y → x ≡ y

module _ {O : Type 0} {h : Hash O} (w : Fixed h) where
  open w use {feeds, width, width_pos, length-bytes, bytes-injective}

  -- A pair of outputs can be read off its bytes.
  pub pair-injective :
      (a b x y : O)
      → feeds.bytes a ++ feeds.bytes b ≡ feeds.bytes x ++ feeds.bytes y
      → (a ≡ x) × (b ≡ y)
  pair-injective a b x y p =
      let q =
        append-cancel (feeds.bytes a) (feeds.bytes b) (feeds.bytes x) (feeds.bytes y)
          (length-bytes a ∙ sym (length-bytes x)) p in
      (bytes-injective a x q.0, bytes-injective b y q.1)

  -- One output feeds fewer bytes than two.
  pub single-ne-pair : (x a b : O) → feeds.bytes x ≢ feeds.bytes a ++ feeds.bytes b
  single-ne-pair x a b p = omega (
    arith,
    ap length p,
    length-append (feeds.bytes a) (feeds.bytes b),
    length-bytes x,
    length-bytes a,
    length-bytes b,
    width_pos,
  )

pub bytes_array-length : (x : Array ℕ 32) → length ((feeds_array32 feeds_u8).bytes x) ≡ 32
bytes_array-length x = ap length (bytes_each-u8 x.items) ∙ x.size

pub bytes_array-injective :
    (x y : Array ℕ 32) → (feeds_array32 feeds_u8).bytes x ≡ (feeds_array32 feeds_u8).bytes y → x ≡ y
bytes_array-injective x y p = Array-ext (sym (bytes_each-u8 x.items) ∙ p ∙ bytes_each-u8 y.items)

-- `[u8; 32]`
abbrev pub fixed_array32 : Fixed (hash_array32 {A = ℕ})
fixed_array32 = record {
  feeds = feeds_array32 feeds_u8;
  width = 32;
  width_pos = omega arith;
  length-bytes = bytes_array-length;
  bytes-injective = bytes_array-injective;
}
