-- ===== src/Merkle/Invalid.antt =====
-- merkle.rs, module `test`: `invalid_proof`, for a digest that stands for SHA-256 and one that stands
-- for Blake2s.
use substrate_scaffold.Prelude.{
  ℕ, ◌≡◌, ◌≢◌, refl, sym, ap, ◌∙◌, Bool, true, false, not, Bool-cases, ◌⊎◌, inl, inr, List, [], ◌∷◌,
  ◌++◌, Array, ◌==◌, eq_nat, eq_array, arith,
}
use substrate_scaffold.Hasher.{Digest, FromOutput, Hashed, prehashed, hash_u8, hash_array32}
use substrate_scaffold.Hasher.Preimage.{digest_bytes}
use substrate_scaffold.Hasher.Fixed.{fixed_array32}
use substrate_scaffold.Merkle.{
  MerkleRoot, ProofElement, right, from_root, verify_proof, merge, expected_root,
}
use substrate_scaffold.Merkle.Climb.{leaf_hash}
use substrate_scaffold.Merkle.Extract.{Collision, leaf_digest, merge_digest}
use substrate_scaffold.Merkle.Longer.{hashed_for, expected_root-walk, verify_proof-longer}
use substrate_scaffold.Merkle.Scenarios.{asserts, text, expected_once}
use substrate_scaffold.Merkle.Passes.{asserts-nil, asserts-true}

-- The root, and the elements of the proof.
abbrev pub root_value : Array ℕ 32
root_value = record {
  items =
      206 ∷ 82 ∷ 21 ∷ 191 ∷ 183 ∷ 222 ∷ 141 ∷ 159 ∷ 194 ∷ 35 ∷ 133 ∷ 46 ∷ 244 ∷ 85 ∷ 200 ∷ 22 ∷ 29
      ∷ 37 ∷ 99 ∷ 128 ∷ 233 ∷ 39 ∷ 184 ∷ 121 ∷ 36 ∷ 104 ∷ 18 ∷ 74 ∷ 103 ∷ 237 ∷ 194 ∷ 133 ∷ [];
  size = refl;
}

abbrev pub stray : Array ℕ 32
stray = record {
  items =
      57 ∷ 73 ∷ 39 ∷ 56 ∷ 142 ∷ 176 ∷ 168 ∷ 173 ∷ 79 ∷ 162 ∷ 171 ∷ 238 ∷ 87 ∷ 116 ∷ 224 ∷ 167 ∷ 105
      ∷ 120 ∷ 195 ∷ 78 ∷ 9 ∷ 145 ∷ 213 ∷ 219 ∷ 253 ∷ 141 ∷ 87 ∷ 201 ∷ 198 ∷ 63 ∷ 195 ∷ 163 ∷ [];
  size = refl;
}

abbrev pub sibling : Array ℕ 32
sibling = record {
  items =
      197 ∷ 58 ∷ 184 ∷ 174 ∷ 92 ∷ 211 ∷ 64 ∷ 33 ∷ 71 ∷ 172 ∷ 213 ∷ 133 ∷ 207 ∷ 130 ∷ 39 ∷ 63 ∷ 53
      ∷ 70 ∷ 105 ∷ 187 ∷ 15 ∷ 187 ∷ 112 ∷ 23 ∷ 255 ∷ 177 ∷ 162 ∷ 212 ∷ 233 ∷ 106 ∷ 31 ∷ 185 ∷ [];
  size = refl;
}

abbrev pub given_root : MerkleRoot (Unit {0}) (Array ℕ 32)
given_root = from_root root_value

abbrev pub given_proof : List (ProofElement (Array ℕ 32))
given_proof = right stray ∷ right sibling ∷ []

abbrev pub given_tail : List (ProofElement (Array ℕ 32))
given_tail = right sibling ∷ []

abbrev pub given_leaf : Hashed (Unit {0}) (Array ℕ 32)
given_leaf = prehashed text

-- `invalid_proof`
unfoldable pub invalid_proof :
    (sha : Digest) ⦃f : FromOutput sha (Array ℕ 32)⦄ (blake : Digest)
    ⦃g : FromOutput blake (Array ℕ 32)⦄
    → Bool
invalid_proof sha ⦃f⦄ blake ⦃g⦄ = asserts (
    verify_proof sha ⦃f = f⦄ given_root given_tail given_leaf
    ∷ not (verify_proof blake ⦃f = g⦄ given_root given_proof given_leaf)
    ∷ not (verify_proof sha ⦃f = f⦄ given_root given_proof given_leaf)
    ∷ [])

-- What Blake2s makes of the leaf, and on the way up the proof.
abbrev pub blake_leaf : Array ℕ 32
blake_leaf = record {
  items =
      250 ∷ 88 ∷ 253 ∷ 216 ∷ 101 ∷ 146 ∷ 137 ∷ 33 ∷ 207 ∷ 156 ∷ 29 ∷ 175 ∷ 25 ∷ 15 ∷ 96 ∷ 11 ∷ 70
      ∷ 212 ∷ 162 ∷ 146 ∷ 115 ∷ 101 ∷ 25 ∷ 213 ∷ 1 ∷ 33 ∷ 74 ∷ 32 ∷ 181 ∷ 198 ∷ 128 ∷ 238 ∷ [];
  size = refl;
}

abbrev pub blake_first : Array ℕ 32
blake_first = record {
  items =
      188 ∷ 166 ∷ 158 ∷ 244 ∷ 160 ∷ 40 ∷ 175 ∷ 241 ∷ 203 ∷ 130 ∷ 132 ∷ 13 ∷ 47 ∷ 23 ∷ 253 ∷ 135
      ∷ 114 ∷ 45 ∷ 183 ∷ 79 ∷ 181 ∷ 186 ∷ 143 ∷ 222 ∷ 233 ∷ 92 ∷ 224 ∷ 48 ∷ 162 ∷ 136 ∷ 198 ∷ 214
      ∷ [];
  size = refl;
}

abbrev pub blake_second : Array ℕ 32
blake_second = record {
  items =
      206 ∷ 90 ∷ 51 ∷ 77 ∷ 88 ∷ 128 ∷ 27 ∷ 195 ∷ 160 ∷ 177 ∷ 162 ∷ 103 ∷ 174 ∷ 16 ∷ 158 ∷ 247 ∷ 41
      ∷ 80 ∷ 245 ∷ 66 ∷ 253 ∷ 141 ∷ 67 ∷ 175 ∷ 123 ∷ 177 ∷ 83 ∷ 215 ∷ 185 ∷ 124 ∷ 211 ∷ 74 ∷ [];
  size = refl;
}

second_of : List ℕ → ℕ
second_of [] = 0
second_of (a ∷ []) = 0
second_of (a ∷ b ∷ bs) = b

not_root : blake_second ≢ root_value
unfolding second_of
not_root e = absurd (omega (arith, ap (λ (a : Array ℕ 32). second_of a.items) e))

module _ (d : Digest) ⦃f : FromOutput d (Array ℕ 32)⦄ where
  leaf_step : (a : Array ℕ 32) → digest_bytes d text.items ≡ a → leaf_hash d text ≡ a
  leaf_step a e = leaf_digest d fixed_array32 text ∙ e

  right_step :
      (a x b : Array ℕ 32)
      → digest_bytes d (fixed_array32.feeds.bytes a ++ fixed_array32.feeds.bytes x) ≡ b
      → merge d (right x) a ≡ b
  right_step a x b e = merge_digest d fixed_array32 (right x) a ∙ e

  accepted :
      digest_bytes d text.items ≡ expected_once
      → digest_bytes d (expected_once.items ++ sibling.items) ≡ root_value
      → verify_proof d given_root given_tail given_leaf ≡ true
  unfolding verify_proof prehashed from_root
  accepted once up = (eq_array.eq_iff (expected_root d given_tail given_leaf) root_value).1 (
      expected_root-walk d fixed_array32 given_tail given_leaf
      ∙ ap (merge d (right sibling)) (leaf_step expected_once once)
      ∙ right_step expected_once sibling root_value up)

  refused :
      digest_bytes d text.items ≡ blake_leaf
      → digest_bytes d (blake_leaf.items ++ stray.items) ≡ blake_first
      → digest_bytes d (blake_first.items ++ sibling.items) ≡ blake_second
      → verify_proof d given_root given_proof given_leaf ≡ false
  unfolding verify_proof prehashed from_root
  refused bottom up top =
      let reached =
        expected_root-walk d fixed_array32 given_proof given_leaf
        ∙ ap (λ a. merge d (right sibling) (merge d (right stray) a)) (leaf_step blake_leaf bottom)
        ∙ ap (merge d (right sibling)) (right_step blake_leaf stray blake_first up)
        ∙ right_step blake_first sibling blake_second top in
      elim (Bool-cases (expected_root d given_proof given_leaf == root_value)) [
        | inl h ↦ absurd (not_root (sym reached ∙ (eq_array.eq_iff _ root_value).0 h))
        | inr h ↦ h
      ]

pub not-true : (b : Bool) → b ≡ false → not b ≡ true
not-true b e = rw e refl

-- If one digest hashes the leaf, and its hash with the sibling, to what SHA-256 makes of them, and
-- the other hashes the leaf, and what it meets on the way up the proof, to what Blake2s makes of
-- them, then the whole test passes: the short proof is accepted, and the long one is refused under
-- both digests; or else a string hashed for the short proof and one hashed for the long are a
-- collision of the first digest.
pub invalid_proof-passes :
    (sha : Digest) ⦃f : FromOutput sha (Array ℕ 32)⦄ (blake : Digest)
    ⦃g : FromOutput blake (Array ℕ 32)⦄
    → digest_bytes sha ⦃f = f⦄ text.items ≡ expected_once
    → digest_bytes sha ⦃f = f⦄ (expected_once.items ++ sibling.items) ≡ root_value
    → digest_bytes blake ⦃f = g⦄ text.items ≡ blake_leaf
    → digest_bytes blake ⦃f = g⦄ (blake_leaf.items ++ stray.items) ≡ blake_first
    → digest_bytes blake ⦃f = g⦄ (blake_first.items ++ sibling.items) ≡ blake_second
    → (invalid_proof sha ⦃f = f⦄ blake ⦃g = g⦄ ≡ true)
      ⊎ Collision sha ⦃f = f⦄ fixed_array32
          (hashed_for sha ⦃f = f⦄ fixed_array32 given_leaf given_tail)
          (hashed_for sha ⦃f = f⦄ fixed_array32 given_leaf given_proof)
unfolding invalid_proof
invalid_proof-passes sha ⦃f⦄ blake ⦃g⦄ once root_met bottom up top =
    let short = accepted sha ⦃f = f⦄ once root_met in
    elim (Bool-cases (verify_proof sha ⦃f = f⦄ given_root given_proof given_leaf)) [
      | inl long ↦ inr (
          verify_proof-longer sha ⦃f = f⦄ fixed_array32 given_root (right stray) [] given_tail
            given_leaf short long)
      | inr refused_too ↦ inl (
          asserts-true _ _ short (
            asserts-true _ _ (not-true _ (refused blake ⦃f = g⦄ bottom up top))
              (asserts-true _ _ (not-true _ refused_too) asserts-nil)))
    ]
