-- ===== src/Merkle/Extract.antt =====
-- merkle.rs: taking an accepted proof apart along the tree, up to a collision of the hash.
use mathlib.Core.List.{Memᴰ}
use mathlib.Core.List.Memᴰ as Mem
use native.Mathlib.Decide.{ℕ_discrete}
use substrate_scaffold.Prelude.{
  ℕ, ◌≡◌, ◌≢◌, refl, sym, ap, subst, ◌∙◌, Bool, true, false, ◌⊎◌, inl, inr, List, [], ◌∷◌, ◌++◌,
}
use substrate_scaffold.Hasher.{Digest, Hash, FromOutput, hash_pairs}
use substrate_scaffold.Hasher.Preimage.{digest_bytes, feeds_pairs, from_preimage-digest_bytes}
use substrate_scaffold.Hasher.Fixed.{Fixed, pair-injective, single-ne-pair}
use substrate_scaffold.Merkle.{ProofElement, left, right, merge, sides}
use substrate_scaffold.Merkle.Tree.{MTree, leaf, tee, root_hash}
use substrate_scaffold.Merkle.Climb.{toss, climb, siblings, reached, leaf_hash}

bytes_discrete : Discrete (List ℕ)
bytes_discrete = hlevel ℕ_discrete

module _ {O : Type 0} (d : Digest) ⦃h : Hash O⦄ ⦃f : FromOutput d O⦄ (w : Fixed h) where
  open w use {feeds, bytes-injective}

  -- The strings of bytes that are hashed for the root of a tree.
  abbrev pub tree_queries : MTree O → List (List ℕ)
  tree_queries (leaf x) = feeds.bytes x ∷ []
  tree_queries (tee l r) =
      (feeds.bytes (root_hash d l) ++ feeds.bytes (root_hash d r))
      ∷ (tree_queries l ++ tree_queries r)

  -- The strings of bytes that are hashed on the way from a leaf up a proof, given from the root
  -- down.
  abbrev pub climb_queries : List (ProofElement O) → O → List (List ℕ)
  climb_queries [] x = feeds.bytes x ∷ []
  climb_queries (p ∷ ps) x =
      (feeds_pairs feeds feeds).bytes (sides d p (climb d ps (leaf_hash d x))) ∷ climb_queries ps x

  -- A string of the one list and another one of the other list with the same digest.
  pub record Collision (S R : List (List ℕ)) : Type 0 where
    pub first : List ℕ
    pub second : List ℕ
    pub first_in : Memᴰ first S
    pub second_in : Memᴰ second R
    pub distinct : first ≢ second
    pub same_digest : digest_bytes {O = O} d first ≡ digest_bytes d second

  pub collide :
      {S R : List (List ℕ)} (a b : List ℕ)
      → Memᴰ a S
      → Memᴰ b R
      → a ≢ b
      → digest_bytes {O = O} d a ≡ digest_bytes d b
      → Collision S R
  collide a b m n p q = record {
    first = a;
    second = b;
    first_in = m;
    second_in = n;
    distinct = p;
    same_digest = q;
  }

  pub same_or_Collision :
      {S R : List (List ℕ)} (a b : List ℕ)
      → Memᴰ a S
      → Memᴰ b R
      → digest_bytes {O = O} d a ≡ digest_bytes d b
      → (a ≡ b) ⊎ Collision S R
  same_or_Collision a b m n q = elim (bytes_discrete a b) [
    | yes p ↦ inl p
    | no p ↦ inr (collide a b m n p q)
  ]

  pub wider :
      {S S' R R' : List (List ℕ)}
      → ((a : List ℕ) → Memᴰ a S → Memᴰ a S')
      → ((a : List ℕ) → Memᴰ a R → Memᴰ a R')
      → Collision S R
      → Collision S' R'
  wider s r c = record {
    first = c.first;
    second = c.second;
    first_in = s c.first c.first_in;
    second_in = r c.second c.second_in;
    distinct = c.distinct;
    same_digest = c.same_digest;
  }

  pub leaf_digest : (x : O) → leaf_hash d x ≡ digest_bytes d (feeds.bytes x)
  leaf_digest x = from_preimage-digest_bytes d feeds x

  pub merge_digest :
      (p : ProofElement O) (y : O)
      → merge d p y ≡ digest_bytes d ((feeds_pairs feeds feeds).bytes (sides d p y))
  unfolding merge
  merge_digest p y = from_preimage-digest_bytes d (feeds_pairs feeds feeds) (sides d p y)

  pub root_leaf : (x : O) → root_hash d (leaf x) ≡ digest_bytes d (feeds.bytes x)
  unfolding root_hash
  root_leaf x = from_preimage-digest_bytes d feeds x

  pub root_digest :
      (l r : MTree O)
      → root_hash d (tee l r)
        ≡ digest_bytes d (feeds.bytes (root_hash d l) ++ feeds.bytes (root_hash d r))
  unfolding root_hash
  root_digest l r =
      from_preimage-digest_bytes d (feeds_pairs feeds feeds) (root_hash d l, root_hash d r)

  -- The tosses lead to the leaf `x`, past the siblings `ps`.
  abbrev pub Reaches : MTree O → List (ProofElement O) → O → Type 0
  Reaches t ps x = (coin : ℕ → Bool) × (siblings d t coin ≡ ps) × (reached t coin ≡ x)

  abbrev pub Extracted : MTree O → List (ProofElement O) → O → Type 0
  Extracted t ps x = Reaches t ps x ⊎ Collision (tree_queries t) (climb_queries ps x)

  -- A proof step that hashes the children's hashes continues the extraction below.
  extract_left :
      (l r : MTree O) (ps : List (ProofElement O)) (x : O)
      → Extracted r ps x
      → Extracted (tee l r) (left (root_hash d l) ∷ ps) x
  extract_left l r ps x (inl (coin, p, q)) =
      inl (toss false coin, ap (◌∷◌ (left (root_hash d l))) p, q)
  extract_left l r ps x (inr c) =
      inr (wider (λ a m. Memᴰ.tail (Mem.append_right _ m)) (λ a m. Memᴰ.tail m) c)

  extract_right :
      (l r : MTree O) (ps : List (ProofElement O)) (x : O)
      → Extracted l ps x
      → Extracted (tee l r) (right (root_hash d r) ∷ ps) x
  extract_right l r ps x (inl (coin, p, q)) =
      inl (toss true coin, ap (◌∷◌ (right (root_hash d r))) p, q)
  extract_right l r ps x (inr c) =
      inr (wider (λ a m. Memᴰ.tail (Mem.append_left _ m)) (λ a m. Memᴰ.tail m) c)

  pub extract :
      (t : MTree O) (ps : List (ProofElement O)) (x : O)
      → climb d ps (leaf_hash d x) ≡ root_hash d t
      → Extracted t ps x
  extract (leaf y) [] x p =
      let same = sym (root_leaf y) ∙ sym p ∙ leaf_digest x in
      elim (same_or_Collision _ _ (Memᴰ.head refl) (Memᴰ.head refl) same) [
        | inl e ↦ inl (λ n. true, refl, bytes-injective y x e)
        | inr c ↦ inr c
      ]
  extract (leaf y) (s ∷ ps) x p =
      let z = climb d ps (leaf_hash d x) in
      let same = sym (root_leaf y) ∙ sym p ∙ merge_digest s z in
      inr (collide _ _ (Memᴰ.head refl) (Memᴰ.head refl) (single-ne-pair w y _ _) same)
  extract (tee l r) [] x p = inr (
      collide _ _ (Memᴰ.head refl) (Memᴰ.head refl) (λ e. single-ne-pair w x _ _ (sym e))
        (sym (root_digest l r) ∙ sym p ∙ leaf_digest x))
  extract (tee l r) (left s ∷ ps) x p =
      let z = climb d ps (leaf_hash d x) in
      let same = sym (root_digest l r) ∙ sym p ∙ merge_digest (left s) z in
      elim (same_or_Collision _ _ (Memᴰ.head refl) (Memᴰ.head refl) same) [
        | inl e ↦
            let (el, er) = pair-injective w (root_hash d l) (root_hash d r) s z e in
            subst (λ s. Extracted (tee l r) (left s ∷ ps) x) el
              (extract_left l r ps x (extract r ps x (sym er)))
        | inr c ↦ inr c
      ]
  extract (tee l r) (right s ∷ ps) x p =
      let z = climb d ps (leaf_hash d x) in
      let same = sym (root_digest l r) ∙ sym p ∙ merge_digest (right s) z in
      elim (same_or_Collision _ _ (Memᴰ.head refl) (Memᴰ.head refl) same) [
        | inl e ↦
            let (el, er) = pair-injective w (root_hash d l) (root_hash d r) z s e in
            subst (λ s. Extracted (tee l r) (right s ∷ ps) x) er
              (extract_right l r ps x (extract l ps x (sym el)))
        | inr c ↦ inr c
      ]
