-- ===== src/Merkle/Passes.antt =====
-- merkle.rs, module `test`: how its tests end, whatever the digest.
use mathlib.Core.List.{Memᴰ}
use substrate_scaffold.Prelude.{
  ℕ, ◌≡◌, refl, sym, ap, ◌∙◌, Bool, true, false, Bool-cases, not, ◌⊎◌, inl, inr, some, List, [],
  ◌∷◌, ◌++◌, Array, ◌==◌, eq_nat, eq_array, arith,
}
use substrate_scaffold.Hasher.{
  Digest, FromOutput, hash_u8, hash_slice, hash_array8, hash_array32, hash_pairs, hash_quadruples,
}
use substrate_scaffold.Hasher.Preimage.{
  digest_bytes, from_preimage-digest_bytes, feeds_u8, feeds_slice, feeds_array8, feeds_array32,
  feeds_pairs, feeds_quadruples,
}
use substrate_scaffold.Hasher.Concat.{hash-same_bytes}
use substrate_scaffold.Hasher.Fixed.{fixed_array32, pair-injective}
use substrate_scaffold.Merkle.Tree.{root_hash}
use substrate_scaffold.Merkle.Extract.{Collision, same_or_Collision}
use substrate_scaffold.Merkle.Completeness.{verify_proof-random_proof}
use substrate_scaffold.Merkle.Bounds.{generate-IsPerfect}
use substrate_scaffold.Merkle.Scenarios.{
  asserts, blash, cash, three, manual_root_random, manual_root_documents, generate_and_verify_proof,
  test_cat_hash, text, two_texts, empty_then_text, quarters, hello_hello, two_words, expected_once,
  expected_twice, expected_hello,
}

pub asserts-nil : asserts [] ≡ true
unfolding asserts
asserts-nil = refl

pub asserts-true :
    (b : Bool) (bs : List Bool) → b ≡ true → asserts bs ≡ true → asserts (b ∷ bs) ≡ true
unfolding asserts
asserts-true b bs h k = rw h k

agree : (x y : Array ℕ 32) → x ≡ y → (x == y) ≡ true
agree x y e = (eq_array.eq_iff x y).1 e

module _ (d : Digest) ⦃f : FromOutput d (Array ℕ 32)⦄ where
  -- What `cash` hashes.
  abbrev pub both : Array ℕ 32 → Array ℕ 32 → List ℕ
  both x y = fixed_array32.feeds.bytes x ++ fixed_array32.feeds.bytes y

  cash-digest_bytes : (x y : Array ℕ 32) → cash d x y ≡ digest_bytes d (both x y)
  cash-digest_bytes x y =
      from_preimage-digest_bytes {P = Array ℕ 32 × Array ℕ 32} {O = Array ℕ 32} d
        (feeds_pairs (feeds_array32 feeds_u8) (feeds_array32 feeds_u8)) (x, y)

  cash-injective :
      {S R : List (List ℕ)} (x y u v : Array ℕ 32)
      → Memᴰ (both x y) S
      → Memᴰ (both u v) R
      → cash d x y ≡ cash d u v
      → ((x ≡ u) × (y ≡ v)) ⊎ Collision d fixed_array32 S R
  cash-injective x y u v m n e =
      let digests = sym (cash-digest_bytes x y) ∙ e ∙ cash-digest_bytes u v in
      elim (same_or_Collision d fixed_array32 (both x y) (both u v) m n digests) [
        | inl same ↦ inl (pair-injective fixed_array32 x y u v same)
        | inr c ↦ inr c
      ]

  -- The two strings that are hashed above the leaves.
  abbrev pub upper : (x y z : Array ℕ 32) → List (List ℕ)
  upper x y z = both (cash d x y) z ∷ both x y ∷ []

  -- The root of `three a b c` is the hash of `u`, `v` and `w` only if these are the hashes of the
  -- leaves, or of a collision.
  abbrev pub Mistaken : (a b c u v w : Array ℕ 32) → Type 0
  Mistaken a b c u v w =
      ((blash d a ≡ u) × (blash d b ≡ v) × (blash d c ≡ w))
      ⊎ Collision d fixed_array32 (upper (blash d a) (blash d b) (blash d c)) (upper u v w)

  root_of_three :
      (a b c : Array ℕ 32)
      → root_hash d (three d a b c) ≡ cash d (cash d (blash d a) (blash d b)) (blash d c)
  unfolding root_hash
  root_of_three a b c = refl

  root-Mistaken :
      (a b c u v w : Array ℕ 32)
      → root_hash d (three d a b c) ≡ cash d (cash d u v) w
      → Mistaken a b c u v w
  root-Mistaken a b c u v w e =
      elim (cash-injective _ _ _ _ (Memᴰ.head refl) (Memᴰ.head refl)
        (sym (root_of_three a b c) ∙ e)) [
          | inr k ↦ inr k
          | inl (p, q) ↦
              elim (cash-injective _ _ _ _ (Memᴰ.tail (Memᴰ.head refl)) (Memᴰ.tail (Memᴰ.head refl))
                p) [ inr k ↦ inr k | inl (r, s) ↦ inl (r, s, q) ]
        ]

  two_asserts :
      (r wrong right : Array ℕ 32)
      → (r == wrong) ≡ false
      → r ≡ right
      → asserts (not (r == wrong) ∷ (r == right) ∷ []) ≡ true
  unfolding asserts
  two_asserts r wrong right h e = rw (h, (eq_array.eq_iff r right).1 e) refl

  checked :
      (a b c u v w : Array ℕ 32)
      → (asserts (
            not (root_hash d (three d a b c) == cash d (cash d u v) w)
            ∷ (root_hash d (three d a b c) == cash d (cash d (blash d a) (blash d b)) (blash d c))
            ∷ [])
          ≡ true)
        ⊎ Mistaken a b c u v w
  checked a b c u v w =
      let made = root_hash d (three d a b c) in
      let wrong = cash d (cash d u v) w in
      elim (Bool-cases (made == wrong)) [
        | inl h ↦ inr (root-Mistaken a b c u v w ((eq_array.eq_iff made wrong).0 h))
        | inr h ↦ inl (two_asserts made wrong _ h (root_of_three a b c))
      ]

  -- Each block of `manual_root` passes; or else the wrong root that it looks at is made of the
  -- hashes of the leaves all the same, so that hashing left two or three of them as they were, or
  -- it is part of a collision of the digest.
  pub manual_root-passes :
      (a b c : Array ℕ 32) (k l m : List ℕ)
      → ((manual_root_random d a b c ≡ true) ⊎ Mistaken a b c a b (blash d c))
        × ((manual_root_documents d k l m ≡ true)
            ⊎ Mistaken (blash d k) (blash d l) (blash d m) (blash d k) (blash d l) (blash d m))
  unfolding manual_root_random manual_root_documents
  manual_root-passes a b c k l m = (
    checked a b c a b (blash d c),
    checked (blash d k) (blash d l) (blash d m) (blash d k) (blash d l) (blash d m),
  )

  -- `generate_and_verify_proof` passes, whatever the random leaves and the tosses: the tree is made,
  -- and its proof is accepted.
  generate_and_verify_proof-passes :
      (random : ℕ → Array ℕ 32) (coin : ℕ → Bool)
      → generate_and_verify_proof d random coin ≡ some true
  unfolding generate_and_verify_proof
  generate_and_verify_proof-passes random coin = elim (generate-IsPerfect random 4 0) [
    | inl (h, (t, e, p, m, n)) ↦ rw e (ap some (verify_proof-random_proof d (Unit {0}) t coin))
    | inr (h, e) ↦ absurd (omega (arith, h))
  ]

-- If the digest gives the hashes that `test_cat_hash` expects of three strings, then the whole test
-- passes: the text as an array, behind an empty slice, and as four shorter arrays have one hash, and
-- so have the words in one slice and in two.
test_cat_hash-passes :
    (sha : Digest) ⦃f : FromOutput sha (Array ℕ 32)⦄
    → digest_bytes sha text.items ≡ expected_once
    → digest_bytes sha (text.items ++ text.items) ≡ expected_twice
    → digest_bytes sha hello_hello ≡ expected_hello
    → test_cat_hash sha ≡ true
unfolding test_cat_hash
test_cat_hash-passes sha once twice hello =
    let arrays8 = feeds_array8 feeds_u8 in
    let arrays32 = feeds_array32 feeds_u8 in
    let slices = feeds_slice feeds_u8 in
    asserts-true _ _ (agree _ _ (from_preimage-digest_bytes sha arrays32 text ∙ once)) (
      asserts-true _ _
        (agree _ _
          (from_preimage-digest_bytes sha (feeds_pairs arrays32 arrays32) two_texts ∙ twice))
        (asserts-true _ _
          (agree _ _
            (from_preimage-digest_bytes sha (feeds_pairs slices arrays32) empty_then_text ∙ once))
          (asserts-true _ _
            (agree _ _ (
              from_preimage-digest_bytes sha (feeds_quadruples arrays8 arrays8 arrays8 arrays8)
                quarters
              ∙ once))
            (asserts-true _ _
              (agree _ _ (from_preimage-digest_bytes sha slices hello_hello ∙ hello))
              (asserts-true _ _
                (agree _ _ (
                  hash-same_bytes sha slices (feeds_pairs slices slices) hello_hello two_words
                    refl))
                asserts-nil)))))
