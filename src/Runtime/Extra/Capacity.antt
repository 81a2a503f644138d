-- ===== src/Runtime/Extra/Capacity.antt =====
-- lib.rs with mod.rs: how much of the pallet's storage a block can change, by the runtime's limit
-- on the weight of a block.
use substrate_scaffold.Prelude.{
  suc, ℕ, ◌+◌, ◌*◌, ◌≤◌, ◌≡◌, ◌⊎◌, inl, inr, sym, subst, ◌∙◌, arith, some,
}
use substrate_scaffold.Anchors.{Pallet}
use substrate_scaffold.Anchors.Entries.{
  ChangesAtMost, ChangesAtMost-refl, ChangesAtMost-trans, ChangesAtMost-le,
  next_block-ChangesAtMost,
}
use substrate_scaffold.Runtime.Calls.{Chain, Modules}
use substrate_scaffold.Runtime.Api.{Block, Executive, execute_block}
use substrate_scaffold.Runtime.Blocks.{SomeOverride}
use substrate_scaffold.Runtime.Extra.{Signing, Extensions, Reading, Applying}
use substrate_scaffold.Runtime.Extra.Loading.{all-Loaded}

module _ {p : Pallet} {m : Modules p} {x : Executive p m} {ext : Extensions x} {r : Reading ext}
    (a : Applying ext r) (names : Signing ext r) where
  execute_block-ChangesAtMost :
      (b : Block x.Header x.Extrinsic) (s t : Chain p m.Rest)
      → ext.block_weight s.rest ≡ 0
      → execute_block x b s ≡ some t
      → ChangesAtMost p 75 s.pallet t.pallet ⊎ SomeOverride x b.extrinsics (x.initialize b.header s)
  unfolding execute_block
  execute_block-ChangesAtMost b s t empty ran =
      let (number, result) = x.executed b s t ran in
      let begun = x.initialize b.header s in
      elim (all-Loaded a names b.extrinsics begun) [
        | inr override ↦ inr override
        | inl (n, l) ↦
            let few : 0 + n ≤ 75 = elim l.limited [
              | inl z ↦ omega (arith, z)
              | inr w ↦ omega (arith, w, a.starts b.header s empty)
            ] in
            let starts =
              subst (λ z. ChangesAtMost p 0 s.pallet z) (sym (x.initialized b.header s))
                (next_block-ChangesAtMost p (x.number b.header) s.pallet) in
            inl (
              ChangesAtMost-le p few (
                subst (λ z. ChangesAtMost p (0 + n) s.pallet z) (sym (result ∙ x.finalized _))
                  (ChangesAtMost-trans p starts l.changes)))
      ]

  -- A number of blocks that a node imports, each after the one before it.
  pub data Imports (s : Chain p m.Rest) : ℕ → Chain p m.Rest → Type 0 where
    no_block : Imports s 0 s
    then_block :
        {n : ℕ} {t u : Chain p m.Rest}
        → Imports s n t
        → (b : Block x.Header x.Extrinsic) → execute_block x b t ≡ some u
        → Imports s (suc n) u

  -- In one of the blocks, one of the extrinsics is signed by the account that is the sudo key then,
  -- is not refused, and is a call of Sudo that holds one of System or of the pallet.
  abbrev pub ImportsOverride :
      {s : Chain p m.Rest} {n : ℕ} {t : Chain p m.Rest} → Imports s n t → Type 0
  ImportsOverride no_block = ⊥
  ImportsOverride (then_block {t} before b ran) =
      ImportsOverride before ⊎ SomeOverride x b.extrinsics (x.initialize b.header t)

  between_blocks :
      {s : Chain p m.Rest} {n : ℕ} {t : Chain p m.Rest}
      → Imports s n t
      → ext.block_weight s.rest ≡ 0
      → ext.block_weight t.rest ≡ 0
  unfolding execute_block
  between_blocks no_block empty = empty
  between_blocks (then_block {t} {u} before b ran) empty = a.ends b t u ran

  -- `n` blocks that a node imports, from a state between blocks on, change at most 75 * n entries
  -- of the pallet's storage, anchors and suspensions together: 75 calls of the pallet weigh the
  -- available three quarters of `MaximumBlockWeight`. Or else the sudo key signed one of their
  -- extrinsics, which was not refused, with a call of Sudo that holds one of System or of the
  -- pallet.
  pub Imports-ChangesAtMost :
      {s : Chain p m.Rest} {n : ℕ} {t : Chain p m.Rest} (r : Imports s n t)
      → ext.block_weight s.rest ≡ 0
      → ChangesAtMost p (n * 75) s.pallet t.pallet ⊎ ImportsOverride r
  Imports-ChangesAtMost {s} no_block empty = inl (ChangesAtMost-refl p s.pallet)
  Imports-ChangesAtMost (then_block {n} {t} {u} before b ran) empty =
      elim (Imports-ChangesAtMost before empty) [
        | inr override ↦ inr (inl override)
        | inl first ↦ elim (execute_block-ChangesAtMost b t u (between_blocks before empty) ran) [
          | inr override ↦ inr (inr override)
          | inl last ↦ inl (ChangesAtMost-le p (omega arith) (ChangesAtMost-trans p first last))
        ]
      ]
