-- ===== src/Merkle/Binding.antt =====
-- merkle.rs: what a root says of its tree.
use mathlib.Core.List.{Memᴰ}
use mathlib.Core.List.Memᴰ as Mem
use substrate_scaffold.Prelude.{◌≡◌, refl, sym, ap, ◌∙◌, ◌⊎◌, inl, inr}
use substrate_scaffold.Hasher.{Digest, Hash, FromOutput}
use substrate_scaffold.Hasher.Fixed.{Fixed, pair-injective, single-ne-pair}
use substrate_scaffold.Merkle.Tree.{MTree, leaf, tee, root_hash}
use substrate_scaffold.Merkle.Extract.{
  Collision, tree_queries, collide, same_or_Collision, wider, root_leaf, root_digest,
}

module _ {O : Type 0} (d : Digest) ⦃h : Hash O⦄ ⦃f : FromOutput d O⦄ (w : Fixed h) where
  open w use {bytes-injective}

  -- A root binds its tree: two trees with one root hash are the same tree, the leaves, their order
  -- and the shape; or else a string hashed for the one and a string hashed for the other are a
  -- collision of the hash function.
  pub root_hash-injective :
      (t u : MTree O)
      → root_hash d t ≡ root_hash d u
      → (t ≡ u) ⊎ Collision d w (tree_queries d w t) (tree_queries d w u)
  root_hash-injective (leaf x) (leaf y) p =
      let same = sym (root_leaf d w x) ∙ p ∙ root_leaf d w y in
      elim (same_or_Collision d w _ _ (Memᴰ.head refl) (Memᴰ.head refl) same) [
        | inl e ↦ inl (ap leaf (bytes-injective x y e))
        | inr c ↦ inr c
      ]
  root_hash-injective (leaf x) (tee l r) p = inr (
      collide d w _ _ (Memᴰ.head refl) (Memᴰ.head refl) (single-ne-pair w x _ _)
        (sym (root_leaf d w x) ∙ p ∙ root_digest d w l r))
  root_hash-injective (tee l r) (leaf y) p = inr (
      collide d w _ _ (Memᴰ.head refl) (Memᴰ.head refl) (λ e. single-ne-pair w y _ _ (sym e))
        (sym (root_digest d w l r) ∙ p ∙ root_leaf d w y))
  root_hash-injective (tee l r) (tee m s) p =
      let same = sym (root_digest d w l r) ∙ p ∙ root_digest d w m s in
      elim (same_or_Collision d w _ _ (Memᴰ.head refl) (Memᴰ.head refl) same) [
        | inr c ↦ inr c
        | inl e ↦
            let (el, er) = pair-injective w (root_hash d l) _ (root_hash d m) _ e in
            elim (root_hash-injective l m el) [
              | inr c ↦ inr (
                  wider d w (λ a i. Memᴰ.tail (Mem.append_left _ i))
                    (λ a i. Memᴰ.tail (Mem.append_left _ i)) c)
              | inl el' ↦ elim (root_hash-injective r s er) [
                | inr c ↦ inr (
                    wider d w (λ a i. Memᴰ.tail (Mem.append_right _ i))
                      (λ a i. Memᴰ.tail (Mem.append_right _ i)) c)
                | inl er' ↦ inl (λ i. tee (el' i) (er' i))
              ]
            ]
      ]
