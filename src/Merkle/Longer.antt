-- ===== src/Merkle/Longer.antt =====
-- merkle.rs: an accepted proof cannot be made longer at the leaf, as `invalid_proof` of the test
-- module tries.
use mathlib.Core.List.{Memᴰ}
use mathlib.Core.List.Memᴰ as Mem
use substrate_scaffold.Prelude.{
  ℕ, ◌≡◌, ◌≢◌, refl, sym, ap, ◌∙◌, true, ◌⊎◌, inl, inr, List, [], ◌∷◌, ◌++◌, foldl, Eq,
}
use substrate_scaffold.Hasher.{
  Digest, Hash, Hashed, FromOutput, hash_pairs, from_preimage, hash_hashed,
}
use substrate_scaffold.Hasher.Fixed.{Fixed, pair-injective, single-ne-pair}
use substrate_scaffold.Merkle.{
  MerkleRoot, ProofElement, left, right, merge, sides, expected_root, verify_proof,
}
use substrate_scaffold.Merkle.Climb.{leaf_hash}
use substrate_scaffold.Merkle.Extract.{
  Collision, collide, same_or_Collision, wider, leaf_digest, merge_digest,
}

module _ {O : Type 0} (d : Digest) ⦃h : Hash O⦄ ⦃f : FromOutput d O⦄ (w : Fixed h) where
  open w use {feeds, bytes-injective}

  abbrev joined : ProofElement O → O → List ℕ
  joined p a = let (x, y) = sides d p a in feeds.bytes x ++ feeds.bytes y

  -- The strings that are hashed on the way up a proof, in order.
  abbrev pub walk_queries : O → List (ProofElement O) → List (List ℕ)
  walk_queries a [] = []
  walk_queries a (p ∷ ps) = joined p a ∷ walk_queries (merge d p a) ps

  abbrev walk : O → List (ProofElement O) → O
  walk a ps = foldl (λ leaf pe. merge d pe leaf) a ps

  joined-injective : (p : ProofElement O) (a b : O) → joined p a ≡ joined p b → a ≡ b
  joined-injective (left x) a b e = (pair-injective w x a x b e).1
  joined-injective (right x) a b e = (pair-injective w a x b x e).0

  merge-injective :
      {S R : List (List ℕ)} (p : ProofElement O) (a b : O)
      → Memᴰ (joined p a) S
      → Memᴰ (joined p b) R
      → merge d p a ≡ merge d p b
      → (a ≡ b) ⊎ Collision d w S R
  merge-injective p a b m n e =
      elim (same_or_Collision d w (joined p a) (joined p b) m n
        (sym (merge_digest d w p a) ∙ e ∙ merge_digest d w p b)) [
          | inl same ↦ inl (joined-injective p a b same)
          | inr c ↦ inr c
        ]

  walk-injective :
      (ps : List (ProofElement O)) (a b : O)
      → walk a ps ≡ walk b ps
      → (a ≡ b) ⊎ Collision d w (walk_queries a ps) (walk_queries b ps)
  walk-injective [] a b e = inl e
  walk-injective (p ∷ ps) a b e = elim (walk-injective ps (merge d p a) (merge d p b) e) [
    | inr c ↦ inr (wider d w (λ x m. Memᴰ.tail m) (λ x m. Memᴰ.tail m) c)
    | inl same ↦ merge-injective p a b (Memᴰ.head refl) (Memᴰ.head refl) same
  ]

  single-ne-joined : (x : O) (p : ProofElement O) (a : O) → feeds.bytes x ≢ joined p a
  single-ne-joined x (left y) a = single-ne-pair w x y a
  single-ne-joined x (right y) a = single-ne-pair w x a y

  -- The strings that are hashed to verify a proof of a leaf, in order.
  abbrev pub hashed_for : {T : Type 0} → Hashed T O → List (ProofElement O) → List (List ℕ)
  hashed_for lh proof = feeds.bytes lh.hash ∷ walk_queries (leaf_hash d lh.hash) proof

  pub expected_root-walk :
      {T : Type 0} (proof : List (ProofElement O)) (lh : Hashed T O)
      → expected_root d proof lh ≡ walk (leaf_hash d lh.hash) proof
  unfolding expected_root from_preimage hash_hashed
  expected_root-walk proof lh = refl

  -- What a walk of some steps hashes last.
  walk-last :
      (a : O) (p : ProofElement O) (ps : List (ProofElement O))
      → (q : ProofElement O) × (y : O) × (walk a (p ∷ ps) ≡ merge d q y)
        × Memᴰ (joined q y) (walk_queries a (p ∷ ps))
  walk-last a p [] = (p, a, refl, Memᴰ.head refl)
  walk-last a p (r ∷ ps) = let (q, y, e, m) = walk-last (merge d p a) r ps in (q, y, e, Memᴰ.tail m)

  walk_queries-append :
      (a : O) (ps qs : List (ProofElement O))
      → walk_queries a (ps ++ qs) ≡ walk_queries a ps ++ walk_queries (walk a ps) qs
  walk_queries-append a [] qs = refl
  walk_queries-append a (p ∷ ps) qs =
      ap (◌∷◌ (joined p a)) (walk_queries-append (merge d p a) ps qs)

  walk-append : (a : O) (ps qs : List (ProofElement O)) → walk a (ps ++ qs) ≡ walk (walk a ps) qs
  walk-append a [] qs = refl
  walk-append a (p ∷ ps) qs = walk-append (merge d p a) ps qs

  -- If a proof is accepted for a leaf, then none that is longer by elements before it is, for the
  -- same root; or else the verifications of the two hash a collision.
  pub verify_proof-longer :
      {T : Type 0} ⦃e : Eq O⦄ (root : MerkleRoot T O) (p : ProofElement O)
      (more proof : List (ProofElement O)) (lh : Hashed T O)
      → verify_proof d root proof lh ≡ true
      → verify_proof d root (p ∷ more ++ proof) lh ≡ true
      → Collision d w (hashed_for lh proof) (hashed_for lh (p ∷ more ++ proof))
  unfolding verify_proof
  verify_proof-longer ⦃e⦄ root p more proof lh short long =
      let start = leaf_hash d lh.hash in
      let (q, y, last, m) = walk-last start p more in
      let met =
        sym (expected_root-walk proof lh)
        ∙ (e.eq_iff _ _).0 short
        ∙ sym ((e.eq_iff _ _).0 long)
        ∙ expected_root-walk (p ∷ more ++ proof) lh
        ∙ walk-append start (p ∷ more) proof in
      rw (walk_queries-append start (p ∷ more) proof)
        (elim (walk-injective proof start (walk start (p ∷ more)) met) [
          | inr c ↦
              wider d w (λ x n. Memᴰ.tail n)
                (λ x n. Memᴰ.tail (Mem.append_right (walk_queries start (p ∷ more)) n)) c
          | inl same ↦
              collide d w _ _ (Memᴰ.head refl) (Memᴰ.tail (Mem.append_left _ m))
                (single-ne-joined lh.hash q y)
                (sym (leaf_digest d w lh.hash) ∙ same ∙ last ∙ merge_digest d w q y)
        ])
