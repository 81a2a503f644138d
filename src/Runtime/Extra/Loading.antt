-- ===== src/Runtime/Extra/Loading.antt =====
-- lib.rs with mod.rs: the entries of the pallet's storage that extrinsics change, against the
-- weight that they add to the block.
use substrate_scaffold.Prelude.{
  ℕ, ◌+◌, ◌*◌, ◌≤◌, ◌≡◌, ◌≢◌, ◌⊎◌, inl, inr, refl, sym, ap, subst, ◌∙◌, arith, some, none, List, [],
  ◌∷◌, Option-cases,
}
use substrate_scaffold.Result.{ok, Result-cases}
use substrate_scaffold.Anchors.{Pallet, Call}
use substrate_scaffold.Anchors.Entries.{
  ChangesAtMost, ChangesAtMost-refl, ChangesAtMost-trans, dispatch-ChangesAtMost,
}
use substrate_scaffold.Runtime.Calls.{Chain, Modules, anchors_call, outer_dispatch}
use substrate_scaffold.Runtime.Reaching.{
  IsOverride, outer_dispatch-kept, anchors_call-kept, unsigned-dispatch,
}
use substrate_scaffold.Runtime.Api.{Executive, apply_all}
use substrate_scaffold.Runtime.Blocks.{IsSudo, SomeOverride}
use substrate_scaffold.Runtime.Extra.{
  Signing, Extensions, Reading, Applying, Dispatched, pre_dispatch, SignedExtra, smaller,
}
use substrate_scaffold.Runtime.Extra.Checks.{block_weight-pre_dispatch, pre_dispatch-counted}

module _ {p : Pallet} {m : Modules p} {x : Executive p m} {ext : Extensions x} {r : Reading ext}
    (a : Applying ext r) (names : Signing ext r) where
  -- From `s` to `t` at most `n` entries of the pallet's storage change, and that many calls of it
  -- are counted in the weight of the block, within the limit.
  pub record Loaded (n : ℕ) (s t : Chain p m.Rest) : Type 0 where
    pub changes : ChangesAtMost p n s.pallet t.pallet
    pub counted : ext.block_weight s.rest + n * 10000 ≤ ext.block_weight t.rest
    pub limited : (n ≡ 0) ⊎ (ext.block_weight s.rest + n * 10000 ≤ 750000)

  unchanged :
      {s t : Chain p m.Rest}
      → t.pallet ≡ s.pallet
      → ext.block_weight s.rest ≤ ext.block_weight t.rest
      → Loaded 0 s t
  unchanged {s} same w = record {
    changes = subst (λ z. ChangesAtMost p 0 s.pallet z) (sym same) (ChangesAtMost-refl p s.pallet);
    counted = omega (arith, w);
    limited = inl refl;
  }

  Loaded-trans :
      {n k : ℕ} {s t u : Chain p m.Rest} → Loaded n s t → Loaded k t u → Loaded (n + k) s u
  Loaded-trans {n} {k} l h = record {
    changes = ChangesAtMost-trans p l.changes h.changes;
    counted = omega (arith, l.counted, h.counted);
    limited = elim h.limited [
      | inr w ↦ inr (omega (arith, l.counted, w))
      | inl z ↦ elim l.limited [
        | inl y ↦ inl (omega (arith, y, z))
        | inr w ↦ inr (omega (arith, w, z))
      ]
    ];
  }

  -- The outcome of an extrinsic whose call leaves the pallet's storage as it was.
  quiet :
      (e : x.Extrinsic) (origin : p.Origin) (s t : Chain p m.Rest)
      → Dispatched ext e origin s t
      → ext.block_weight s.rest ≤ ext.block_weight t.rest
      → (outer_dispatch p m (x.function e) origin t).1.pallet ≡ t.pallet
      → Loaded 0 s (x.apply e s).1 ⊎ IsOverride p m (m.key_of s.rest) origin (x.function e)
  quiet e origin s t d w kept = elim (a.calls_keep (x.function e) origin t d.not_root) [
    | inl same ↦
        inl (
          unchanged (d.pallet_after ∙ kept ∙ d.same_pallet)
            (omega (arith, w, d.weight_after, same)))
    | inr (signed, h) ↦ inr (signed ∙ ap ok d.same_key, h)
  ]

  -- The outcome of one that is signed and whose call is one of the pallet.
  loud :
      (e : x.Extrinsic) (origin : p.Origin) (s : Chain p m.Rest) (who : p.AccountId)
      (extra : SignedExtra ext.Era) (c : Call p.trait)
      → x.function e ≡ anchors_call c
      → let run =
          pre_dispatch ext extra who (r.get_dispatch_info (x.function e)) (r.len e) s.rest in
        run.0 ≡ ok tt
        → Dispatched ext e origin s (record s { rest = run.1 })
        → Loaded 1 s (x.apply e s).1
  loud e origin s who extra c f passed d =
      let info = r.get_dispatch_info (x.function e) in
      let known = ap r.get_dispatch_info f ∙ r.anchors_info c in
      let run = pre_dispatch ext extra who info (r.len e) s.rest in
      let t : Chain p m.Rest = record s { rest = run.1 } in
      let (pallet, rest, reported) = anchors_call-kept p m c origin t in
      let result =
        subst (λ z. (x.apply e s).1.pallet ≡ (outer_dispatch p m z origin t).1.pallet) f
          d.pallet_after in
      let weight =
        subst
          (λ z.
            ext.block_weight (x.apply e s).1.rest
            ≡ ext.block_weight (outer_dispatch p m z origin t).1.rest)
          f d.weight_after in
      let (counted, limited) =
        pre_dispatch-counted ext extra who info (r.len e) s.rest (ap (λ i. i.class) known) passed in
      let w : smaller info.weight 750000 ≡ 10000 = ap (λ i. smaller i.weight 750000) known in
      let after = ap ext.block_weight rest in
      record {
        changes =
            subst (λ z. ChangesAtMost p 1 s.pallet z) (sym (result ∙ pallet))
              (dispatch-ChangesAtMost p origin c s.pallet);
        counted = omega (arith, counted, w, weight, after);
        limited = inr (omega (arith, counted, w, limited));
      }

  unsigned_call :
      (e : x.Extrinsic) (origin : p.Origin) (t : Chain p m.Rest) (c : Call p.trait)
      → x.function e ≡ anchors_call c
      → ((who : p.AccountId) → p.ensure_signed origin ≢ ok who)
      → (outer_dispatch p m (x.function e) origin t).1.pallet ≡ t.pallet
  unsigned_call e origin t c f nobody = elim (Result-cases (p.ensure_signed origin)) [
    | inl (who, h) ↦ absurd (nobody who h)
    | inr (why, h) ↦
        rw f ((anchors_call-kept p m c origin t).0 ∙ unsigned-dispatch p origin c t.pallet why h)
  ]

  -- What an extrinsic does, but for a use of the sudo key.
  abbrev Outcome : x.Extrinsic → Chain p m.Rest → Type 0
  Outcome e s = ((n : ℕ) × Loaded n s (x.apply e s).1) ⊎ IsSudo x e s

  quiet-Outcome :
      (e : x.Extrinsic) (s : Chain p m.Rest) {B : Type 0}
      → Loaded 0 s (x.apply e s).1 ⊎ B
      → (B → Outcome e s)
      → Outcome e s
  quiet-Outcome e s (inl l) otherwise = inl (0, l)
  quiet-Outcome e s (inr h) otherwise = otherwise h

  by_sudo :
      (e : x.Extrinsic) (origin : p.Origin) (s t : Chain p m.Rest) (who : p.AccountId)
      (extra : SignedExtra ext.Era)
      → r.signature e ≡ some (who, extra)
      → p.ensure_signed origin ≡ ok who
      → Dispatched ext e origin s t
      → IsOverride p m (m.key_of s.rest) origin (x.function e)
      → Outcome e s
  by_sudo e origin s t who extra by signed d (key, h) =
      let same : who ≡ m.key_of s.rest = cc in
      inr (record {
        by_key = names.signed_by e who extra by ∙ ap some same;
        outcome = (outer_dispatch p m (x.function e) origin t).0;
        not_refused = d.reported;
        not_ordinary = h;
      })

  unsigned-Outcome : (e : x.Extrinsic) (s : Chain p m.Rest) → r.signature e ≡ none → Outcome e s
  unsigned-Outcome e s bare = elim (a.unsigned e s bare) [
    | inl (why, same) ↦
        let after = ap (λ z. z.1) same in
        inl (
          0,
          unchanged (ap (λ t. t.pallet) after)
              (omega (arith, ap (λ t. ext.block_weight t.rest) after)),
        )
    | inr (origin, t, nobody, w, d) ↦
        elim (outer_dispatch-kept p m (x.function e) origin t d.not_root) [
          | inl kept ↦ quiet-Outcome e s (quiet e origin s t d w kept) (λ h. absurd (nobody _ h.0))
          | inr (inl (c, f)) ↦
              quiet-Outcome e s (quiet e origin s t d w (unsigned_call e origin t c f nobody))
                (λ h. absurd (nobody _ h.0))
          | inr (inr (signed, h)) ↦ absurd (nobody _ signed)
        ]
  ]

  signed-Outcome :
      (e : x.Extrinsic) (s : Chain p m.Rest) (who : p.AccountId) (extra : SignedExtra ext.Era)
      → r.signature e ≡ some (who, extra)
      → Outcome e s
  signed-Outcome e s who extra by =
      let w =
        block_weight-pre_dispatch ext extra who (r.get_dispatch_info (x.function e)) (r.len e)
          s.rest in
      elim (a.signed e s who extra by) [
        | inl (why, refused, same) ↦
            let after = ap (λ z. z.1) same in
            inl (
              0,
              unchanged (ap (λ t. t.pallet) after)
                  (omega (arith, w, ap (λ t. ext.block_weight t.rest) after)),
            )
        | inr (origin, passed, signed, d) ↦
            elim (outer_dispatch-kept p m (x.function e) origin _ d.not_root) [
              | inl kept ↦
                  quiet-Outcome e s (quiet e origin s _ d w kept)
                    (by_sudo e origin s _ who extra by signed d)
              | inr (inl (c, f)) ↦ inl (1, loud e origin s who extra c f passed d)
              | inr (inr (key, h)) ↦
                  by_sudo e origin s _ who extra by signed d (key ∙ ap ok d.same_key, h)
            ]
      ]

  extrinsic-Outcome : (e : x.Extrinsic) (s : Chain p m.Rest) → Outcome e s
  extrinsic-Outcome e s = elim (Option-cases (r.signature e)) [
    | inl bare ↦ unsigned-Outcome e s bare
    | inr ((who, extra), by) ↦ signed-Outcome e s who extra by
  ]

  pub all-Loaded :
      (es : List x.Extrinsic) (s : Chain p m.Rest)
      → ((n : ℕ) × Loaded n s (apply_all x.apply es s)) ⊎ SomeOverride x es s
  all-Loaded [] s = inl (0, unchanged refl (omega arith))
  all-Loaded (e ∷ es) s = elim (extrinsic-Outcome e s) [
    | inr override ↦ inr (inl override)
    | inl (n, first) ↦ elim (all-Loaded es (x.apply e s).1) [
      | inl (k, rest) ↦ inl (n + k, Loaded-trans first rest)
      | inr override ↦ inr (inr override)
    ]
  ]
