-- ===== src/Merkle/Scenarios.antt =====
-- merkle.rs, module `test`: the tests that build trees by hand, that verify a proof of a random tree,
-- and that hash pieces of one text. What `rand::random` returns is given; the digests are too.
use substrate_scaffold.Prelude.{
  false, ℕ, refl, Bool, true, not, Option, none, some, List, [], ◌∷◌, Array, if◌then◌else◌, ◌==◌,
  eq_nat, eq_array,
}
use substrate_scaffold.Hasher.{
  Digest, Hash, FromOutput, prehashed, from_preimage, hash_u8, hash_slice, hash_array8,
  hash_array32, hash_pairs, hash_quadruples,
}
use substrate_scaffold.Merkle.{from_root, verify_proof}
use substrate_scaffold.Merkle.Tree.{MTree, leaf, tee, generate, root_hash, random_proof}

-- Assertions, one after the other.
unfoldable pub asserts : List Bool → Bool
asserts [] = true
asserts (b ∷ bs) = let rest = asserts bs in if b then rest else false

module _ (d : Digest) ⦃f : FromOutput d (Array ℕ 32)⦄ where
  -- `blash`, and `sha`, which is the same function for another digest.
  abbrev pub blash : {A : Type 0} ⦃h : Hash A⦄ → A → Array ℕ 32
  blash a = (from_preimage {O = Array ℕ 32} d a).hash

  abbrev pub cash : {A B : Type 0} ⦃h : Hash A⦄ ⦃k : Hash B⦄ → A → B → Array ℕ 32
  cash {A} {B} a b = blash {A = A × B} (a, b)

  abbrev pub three : (a b c : Array ℕ 32) → MTree (Array ℕ 32)
  three a b c = tee (tee (leaf a) (leaf b)) (leaf c)

  -- The two blocks of `manual_root`: of three random leaves, and of the hashes of three documents.
  unfoldable pub manual_root_random : (a b c : Array ℕ 32) → Bool
  manual_root_random a b c =
      let tree = three a b c in
      asserts (
        not (root_hash d tree == cash (cash a b) (blash c))
        ∷ (root_hash d tree == cash (cash (blash a) (blash b)) (blash c))
        ∷ [])

  unfoldable pub manual_root_documents : (a b c : List ℕ) → Bool
  manual_root_documents a b c =
      let ah = blash a in
      let bh = blash b in
      let ch = blash c in
      let rh = root_hash d (three ah bh ch) in
      asserts (
        not (rh == cash (cash ah bh) ch)
        ∷ (rh == cash (cash (blash ah) (blash bh)) (blash ch))
        ∷ [])

  proof_verified : (ℕ → Bool) → Option (MTree (Array ℕ 32) × ℕ) → Option Bool
  proof_verified coin none = none
  proof_verified coin (some (tree, drawn)) =
      let made = random_proof d tree coin in
      some (verify_proof d (from_root {T = Unit {0}} (root_hash d tree)) made.0 (prehashed made.1))

  -- `generate_and_verify_proof`, which returns `none` where `generate` panics.
  unfoldable pub generate_and_verify_proof : (ℕ → Array ℕ 32) → (ℕ → Bool) → Option Bool
  unfolding proof_verified
  generate_and_verify_proof random coin = proof_verified coin (generate random 4 0)

-- The texts of `test_cat_hash`, and the hashes that it expects.
abbrev pub text : Array ℕ 32
text = record {
  items =
      71 ∷ 65 ∷ 160 ∷ 229 ∷ 15 ∷ 151 ∷ 126 ∷ 29 ∷ 239 ∷ 253 ∷ 129 ∷ 243 ∷ 146 ∷ 114 ∷ 10 ∷ 31 ∷ 161
      ∷ 82 ∷ 214 ∷ 149 ∷ 126 ∷ 122 ∷ 197 ∷ 202 ∷ 212 ∷ 217 ∷ 161 ∷ 99 ∷ 30 ∷ 93 ∷ 39 ∷ 138 ∷ [];
  size = refl;
}

abbrev pub quarter_first : Array ℕ 8
quarter_first = record { items = 71 ∷ 65 ∷ 160 ∷ 229 ∷ 15 ∷ 151 ∷ 126 ∷ 29 ∷ []; size = refl }

abbrev pub quarter_second : Array ℕ 8
quarter_second = record { items = 239 ∷ 253 ∷ 129 ∷ 243 ∷ 146 ∷ 114 ∷ 10 ∷ 31 ∷ []; size = refl }

abbrev pub quarter_third : Array ℕ 8
quarter_third = record { items = 161 ∷ 82 ∷ 214 ∷ 149 ∷ 126 ∷ 122 ∷ 197 ∷ 202 ∷ []; size = refl }

abbrev pub quarter_fourth : Array ℕ 8
quarter_fourth = record { items = 212 ∷ 217 ∷ 161 ∷ 99 ∷ 30 ∷ 93 ∷ 39 ∷ 138 ∷ []; size = refl }

abbrev pub expected_once : Array ℕ 32
expected_once = record {
  items =
      254 ∷ 209 ∷ 128 ∷ 147 ∷ 151 ∷ 182 ∷ 63 ∷ 91 ∷ 139 ∷ 56 ∷ 3 ∷ 196 ∷ 67 ∷ 119 ∷ 173 ∷ 111 ∷ 210
      ∷ 51 ∷ 37 ∷ 19 ∷ 55 ∷ 167 ∷ 27 ∷ 196 ∷ 201 ∷ 93 ∷ 146 ∷ 145 ∷ 86 ∷ 55 ∷ 125 ∷ 78 ∷ [];
  size = refl;
}

abbrev pub expected_twice : Array ℕ 32
expected_twice = record {
  items =
      58 ∷ 174 ∷ 178 ∷ 240 ∷ 78 ∷ 173 ∷ 99 ∷ 42 ∷ 189 ∷ 117 ∷ 135 ∷ 250 ∷ 243 ∷ 173 ∷ 144 ∷ 214
      ∷ 184 ∷ 227 ∷ 52 ∷ 123 ∷ 208 ∷ 142 ∷ 76 ∷ 212 ∷ 182 ∷ 47 ∷ 118 ∷ 94 ∷ 84 ∷ 194 ∷ 205 ∷ 158
      ∷ [];
  size = refl;
}

abbrev pub expected_hello : Array ℕ 32
expected_hello = record {
  items =
      32 ∷ 208 ∷ 191 ∷ 233 ∷ 29 ∷ 128 ∷ 169 ∷ 243 ∷ 44 ∷ 207 ∷ 148 ∷ 127 ∷ 149 ∷ 117 ∷ 130 ∷ 169
      ∷ 64 ∷ 171 ∷ 47 ∷ 153 ∷ 152 ∷ 177 ∷ 0 ∷ 117 ∷ 17 ∷ 219 ∷ 163 ∷ 47 ∷ 8 ∷ 112 ∷ 22 ∷ 224 ∷ [];
  size = refl;
}

abbrev pub hello : List ℕ
hello = 104 ∷ 101 ∷ 108 ∷ 108 ∷ 111 ∷ []

abbrev pub space_hello : List ℕ
space_hello = 32 ∷ 104 ∷ 101 ∷ 108 ∷ 108 ∷ 111 ∷ []

abbrev pub hello_hello : List ℕ
hello_hello = 104 ∷ 101 ∷ 108 ∷ 108 ∷ 111 ∷ 32 ∷ 104 ∷ 101 ∷ 108 ∷ 108 ∷ 111 ∷ []

abbrev pub empty_then_text : List ℕ × Array ℕ 32
empty_then_text = ([], text)

abbrev pub two_texts : Array ℕ 32 × Array ℕ 32
two_texts = (text, text)

abbrev pub quarters : Array ℕ 8 × Array ℕ 8 × Array ℕ 8 × Array ℕ 8
quarters = (quarter_first, quarter_second, quarter_third, quarter_fourth)

abbrev pub two_words : List ℕ × List ℕ
two_words = (hello, space_hello)

module _ (sha : Digest) ⦃f : FromOutput sha (Array ℕ 32)⦄ where
  unfoldable pub test_cat_hash : Bool
  test_cat_hash = asserts (
      (blash sha text == expected_once)
      ∷ (blash sha two_texts == expected_twice)
      ∷ (blash sha empty_then_text == expected_once)
      ∷ (blash sha quarters == expected_once)
      ∷ (blash sha hello_hello == expected_hello)
      ∷ (blash sha hello_hello == blash sha two_words)
      ∷ [])
