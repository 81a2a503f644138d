-- ===== src/Anchors/Entries.antt =====
-- mod.rs: how many entries of the two storage maps a history can change.
use mathlib.Core.List.{Memᴰ}
use mathlib.Core.List.Memᴰ as Mem
use substrate_scaffold.Prelude.{
  ℕ, ◌+◌, ◌≤◌, ◌≡◌, refl, sym, ◌∙◌, List, [], ◌∷◌, ◌++◌, length, length-append, arith,
}
use substrate_scaffold.Anchors.{
  AnchorKey, LeafKey, Pallet, State, not_revoked, revoked, Call, create_anchor_call,
  revoke_anchor_call, suspend_leaf_call, dispatch, lookup_anchor,
}
use substrate_scaffold.Anchors.Lifecycle.{anchor_at, suspension_at}

module _ (p : Pallet) where
  -- All but `n` entries of the storage are the same in both states.
  pub record ChangesAtMost (n : ℕ) (s t : State p) : Type 0 where
    pub anchors : List (AnchorKey p.trait)
    pub leaves : List (LeafKey p.trait)
    pub few : length anchors + length leaves ≤ n
    pub anchors_kept :
        (k : AnchorKey p.trait) → ¬ Memᴰ k anchors → anchor_at p t k ≡ anchor_at p s k
    pub leaves_kept :
        (k : LeafKey p.trait) → ¬ Memᴰ k leaves → suspension_at p t k ≡ suspension_at p s k

  pub ChangesAtMost-refl : (s : State p) → ChangesAtMost 0 s s
  ChangesAtMost-refl s = record {
    anchors = [];
    leaves = [];
    few = omega arith;
    anchors_kept = λ k h. refl;
    leaves_kept = λ k h. refl;
  }

  pub next_block-ChangesAtMost :
      (number : ℕ) (s : State p) → ChangesAtMost 0 s (record s { block_number = number })
  unfolding lookup_anchor
  next_block-ChangesAtMost number s = record {
    anchors = [];
    leaves = [];
    few = omega arith;
    anchors_kept = λ k h. refl;
    leaves_kept = λ k h. refl;
  }

  pub ChangesAtMost-le :
      {n k : ℕ} {s t : State p} → n ≤ k → ChangesAtMost n s t → ChangesAtMost k s t
  ChangesAtMost-le h c = record {
    anchors = c.anchors;
    leaves = c.leaves;
    few = omega (arith, h, c.few);
    anchors_kept = c.anchors_kept;
    leaves_kept = c.leaves_kept;
  }

  pub ChangesAtMost-trans :
      {n k : ℕ} {s t u : State p}
      → ChangesAtMost n s t
      → ChangesAtMost k t u
      → ChangesAtMost (n + k) s u
  ChangesAtMost-trans c d = record {
    anchors = c.anchors ++ d.anchors;
    leaves = c.leaves ++ d.leaves;
    few =
        omega
          (arith, length-append c.anchors d.anchors, length-append c.leaves d.leaves, c.few, d.few);
    anchors_kept = λ k h.
        d.anchors_kept k (λ m. h (Mem.append_right _ m))
        ∙ c.anchors_kept k (λ m. h (Mem.append_left _ m));
    leaves_kept = λ k h.
        d.leaves_kept k (λ m. h (Mem.append_right _ m))
        ∙ c.leaves_kept k (λ m. h (Mem.append_left _ m));
  }

  pub dispatch-ChangesAtMost :
      (origin : p.Origin) (c : Call p.trait) (s : State p)
      → ChangesAtMost 1 s (dispatch p origin c s).1
  unfolding dispatch lookup_anchor
  dispatch-ChangesAtMost origin (create_anchor_call a r) s = record {
    anchors = (a, r) ∷ [];
    leaves = [];
    few = omega arith;
    anchors_kept = λ k h. ground (
      arith,
      p.Anchors.get-insert_ne s.anchors (a, r) k (not_revoked s.block_number)
          (λ e. h (Memᴰ.head (sym e))),
    );
    leaves_kept = λ k h. ground arith;
  }
  dispatch-ChangesAtMost origin (revoke_anchor_call a r proof) s = record {
    anchors = (a, r) ∷ [];
    leaves = [];
    few = omega arith;
    anchors_kept = λ k h.
        ground
          (arith, p.Anchors.get-insert_ne s.anchors (a, r) k revoked (λ e. h (Memᴰ.head (sym e))));
    leaves_kept = λ k h. ground arith;
  }
  dispatch-ChangesAtMost origin (suspend_leaf_call a l proof end) s = record {
    anchors = [];
    leaves = (a, l) ∷ [];
    few = omega arith;
    anchors_kept = λ k h. ground arith;
    leaves_kept = λ k h. ground (
      arith,
      p.SuspendedLeaves.get-insert_ne s.suspended_leaves (a, l) k end (λ e. h (Memᴰ.head (sym e))),
    );
  }
