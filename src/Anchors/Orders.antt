-- ===== src/Anchors/Orders.antt =====
-- mod.rs: a block of calls in whatever order its author puts them.
use mathlib.Core.List.{Permᴰ}
use substrate_scaffold.Prelude.{◌≡◌, ◌≢◌, refl, sym, ap, subst, ◌∙◌, List, [], ◌∷◌}
use substrate_scaffold.Result.{Result}
use mathlib.Core.Quot.{Quot}
use substrate_scaffold.Anchors.{DispatchError, Pallet, State, Call, dispatch}
use substrate_scaffold.Anchors.Ledger.{ledger_of}
use substrate_scaffold.Anchors.Commute.{dispatch-commute, entry}
use substrate_scaffold.Anchors.Observation.{make}
use substrate_scaffold.Anchors.View.{View, ledger_view, after, after-commute}

module _ (p : Pallet) where
  -- A call with the origin that makes it.
  abbrev pub Signed : Type 0
  Signed = p.Origin × Call p.trait

  -- The calls, one after the other, whether they succeed or not.
  abbrev pub block : List Signed → State p → State p
  block [] s = s
  block (c ∷ cs) s = block cs (dispatch p c.0 c.1 s).1

  -- How each of the calls ends in the block.
  abbrev pub results :
      List Signed → State p → List (Result (DispatchError p.trait.SystemError) (Unit {0}))
  results [] s = []
  results (c ∷ cs) s = let d = dispatch p c.0 c.1 s in d.0 ∷ results cs d.1

  -- How each of them would end as the only call of its block.
  abbrev pub alone :
      State p → List Signed → List (Result (DispatchError p.trait.SystemError) (Unit {0}))
  alone s [] = []
  alone s (c ∷ cs) = (dispatch p c.0 c.1 s).0 ∷ alone s cs

  abbrev pub IsApart : Signed → List Signed → Type 0
  IsApart c [] = Unit
  IsApart c (e ∷ es) = (entry p c.1 ≢ entry p e.1) × IsApart c es

  -- No two calls are about one entry of the storage.
  abbrev pub IsSpread : List Signed → Type 0
  IsSpread [] = Unit
  IsSpread (c ∷ cs) = IsApart c cs × IsSpread cs

  Permᴰ-IsApart : {l m : List Signed} (c : Signed) → Permᴰ l m → IsApart c l → IsApart c m
  Permᴰ-IsApart c Permᴰ.nil h = h
  Permᴰ-IsApart c (Permᴰ.cons e d) (h, k) =
      (subst (λ z. entry p c.1 ≢ entry p z.1) e h, Permᴰ-IsApart c d k)
  Permᴰ-IsApart c (Permᴰ.swap e f) (h, (k, j)) =
      (subst (λ z. entry p c.1 ≢ entry p z.1) f k, (subst (λ z. entry p c.1 ≢ entry p z.1) e h, j))
  Permᴰ-IsApart c (Permᴰ.trans d q) h = Permᴰ-IsApart c q (Permᴰ-IsApart c d h)

  Permᴰ-IsSpread : {l m : List Signed} → Permᴰ l m → IsSpread l → IsSpread m
  Permᴰ-IsSpread Permᴰ.nil h = h
  Permᴰ-IsSpread (Permᴰ.cons {a} {l₂ = m} e d) (h, k) =
      (subst (λ z. IsApart z m) e (Permᴰ-IsApart a d h), Permᴰ-IsSpread d k)
  Permᴰ-IsSpread (Permᴰ.swap {a} {b} {a'} {b'} {l} e f) ((h, k), (j, s)) = (
    (
      λ q. h (ap (λ z. entry p z.1) e ∙ sym q ∙ ap (λ z. entry p z.1) (sym f)),
      subst (λ z. IsApart z l) f j,
    ),
    (subst (λ z. IsApart z l) e k, s),
  )
  Permᴰ-IsSpread (Permᴰ.trans d q) h = Permᴰ-IsSpread q (Permᴰ-IsSpread d h)

  seen : List Signed → View p → View p
  seen [] v = v
  seen (c ∷ cs) v = seen cs (after p (make c.0 c.1) v)

  seen-block : (l : List Signed) (s : State p) → seen l (Quot.mk s) ≡ Quot.mk (block l s)
  unfolding seen after
  seen-block [] s = refl
  seen-block (c ∷ cs) s = seen-block cs (dispatch p c.0 c.1 s).1

  seen-Permᴰ : {l m : List Signed} (v : View p) → Permᴰ l m → IsSpread l → seen l v ≡ seen m v
  unfolding seen
  seen-Permᴰ v Permᴰ.nil h = refl
  seen-Permᴰ v (Permᴰ.cons {a} {b} {l₂ = m} e d) (h, k) =
      seen-Permᴰ (after p (make a.0 a.1) v) d k ∙ ap (λ z. seen m (after p (make z.0 z.1) v)) e
  seen-Permᴰ v (Permᴰ.swap {a} {b} {a'} {b'} {l} e f) ((h, k), s) =
      ap (seen l) (after-commute p b.0 a.0 b.1 a.1 v (λ q. h (sym q)))
      ∙ ap (λ z. seen l (after p (make a.0 a.1) (after p (make z.0 z.1) v))) f
      ∙ ap (λ z. seen l (after p (make z.0 z.1) (after p (make a'.0 a'.1) v))) e
  seen-Permᴰ v (Permᴰ.trans d q) h = seen-Permᴰ v d h ∙ seen-Permᴰ v q (Permᴰ-IsSpread d h)

  alone-apart :
      (c : Signed) (cs : List Signed) (s : State p)
      → IsApart c cs
      → alone (dispatch p c.0 c.1 s).1 cs ≡ alone s cs
  alone-apart c [] s h = refl
  alone-apart c (e ∷ es) s (h, k) =
      ap (λ x. x ∷ alone (dispatch p c.0 c.1 s).1 es) (dispatch-commute p c.0 e.0 c.1 e.1 s h).1
      ∙ ap (λ z. (dispatch p e.0 e.1 s).0 ∷ z) (alone-apart c es s k)

  results-alone : (l : List Signed) (s : State p) → IsSpread l → results l s ≡ alone s l
  results-alone [] s h = refl
  results-alone (c ∷ cs) s (h, k) =
      ap (λ z. (dispatch p c.0 c.1 s).0 ∷ z)
        (results-alone cs (dispatch p c.0 c.1 s).1 k ∙ alone-apart c cs s h)

  -- The author of a block cannot change what it does by its order. For two orders of calls of which
  -- no two are about one entry of the storage, whoever signs them and whichever of them fail: in
  -- both, each call ends as it would alone, and the ledger after both is the same.
  pub block-Permᴰ :
      {l m : List Signed} (s : State p)
      → Permᴰ l m
      → IsSpread l
      → (results l s ≡ alone s l)
        × (results m s ≡ alone s m)
        × (ledger_of p (block l s) ≡ ledger_of p (block m s))
  unfolding ledger_view
  block-Permᴰ {l} {m} s d h = (
    results-alone l s h,
    results-alone m s (Permᴰ-IsSpread d h),
    ap (ledger_view p) (sym (seen-block l s) ∙ seen-Permᴰ (Quot.mk s) d h ∙ seen-block m s),
  )
