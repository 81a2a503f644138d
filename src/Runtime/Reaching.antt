-- ===== src/Runtime/Reaching.antt =====
-- lib.rs with mod.rs: what the calls of the whole runtime can do to the storage of the anchors.
use substrate_scaffold.Prelude.{ap, ◌⊎◌, ◌≡◌, ◌≢◌, inl, inr, refl, sym, subst, arith, ◌∙◌}
use substrate_scaffold.Result.{ok, err, Result-cases}
use substrate_scaffold.Anchors.{
  create_anchor_call, revoke_anchor_call, suspend_leaf_call, Pallet, State, Call, dispatch,
}
use substrate_scaffold.Anchors.Lifecycle.{Reach, call, here, next}
use substrate_scaffold.Runtime.Calls.{
  Chain, Modules, OuterCall, system_call, timestamp_call, grandpa_call, indices_call, balances_call,
  sudo_call, sudo_as_call, set_key_call, randomness_collective_flip_call, anchors_call,
  outer_dispatch,
}

-- A call that nobody signed changes nothing.
pub unsigned-dispatch :
    (p : Pallet) (origin : p.Origin) (c : Call p.trait) (s : State p) (x : p.SystemError)
    → p.ensure_signed origin ≡ err x
    → (dispatch p origin c s).1 ≡ s
unfolding dispatch
unsigned-dispatch p origin (create_anchor_call admins root) s x e = ground (arith, e)
unsigned-dispatch p origin (revoke_anchor_call admins root proof) s x e = ground (arith, e)
unsigned-dispatch p origin (suspend_leaf_call admins leaf proof end) s x e = ground (arith, e)

module _ (p : Pallet) (m : Modules p) where
  -- With the origin `root` the call leaves the pallet alone: neither it nor what it runs by `sudo`,
  -- however deep, is a call of System. A `sudo_as` wants a signed origin, and is refused.
  abbrev pub IsConfined : OuterCall p m → Type 0
  IsConfined (system_call c) = ⊥
  IsConfined (sudo_call c) = IsConfined c
  IsConfined _ = Unit

  -- With any other origin it leaves the pallet alone.
  abbrev pub IsPassive : OuterCall p m → Type 0
  IsPassive (anchors_call c) = ⊥
  IsPassive (sudo_call c) = IsConfined c
  IsPassive (sudo_as_call address c) = IsPassive c
  IsPassive _ = Unit

  -- The sudo key is not used for a call of System by `sudo`, nor for one of the pallet by `sudo_as`.
  abbrev pub IsOrdinary : OuterCall p m → Type 0
  IsOrdinary (sudo_call c) = IsConfined c
  IsOrdinary (sudo_as_call address c) = IsPassive c
  IsOrdinary _ = Unit

  dispatch-root : (c : Call p.trait) (s : State p) → (dispatch p m.root c s).1 ≡ s
  dispatch-root c s = elim (Result-cases (p.ensure_signed m.root)) [
    | inl (who, e) ↦ absurd (m.root_unsigned who e)
    | inr (x, e) ↦ unsigned-dispatch p m.root c s x e
  ]

  root-keeps :
      (c : OuterCall p m) (s : Chain p m.Rest)
      → IsConfined c
      → (outer_dispatch p m c m.root s).1.pallet ≡ s.pallet
  unfolding outer_dispatch
  root-keeps (system_call c) s h = absurd h
  root-keeps (timestamp_call c) s h = m.timestamp.keeps m.root c s
  root-keeps (grandpa_call c) s h = m.grandpa.keeps m.root c s
  root-keeps (indices_call c) s h = m.indices.keeps m.root c s
  root-keeps (balances_call c) s h = m.balances.keeps m.root c s
  root-keeps (set_key_call c) s h = m.set_key.keeps m.root c s
  root-keeps (randomness_collective_flip_call c) s h = m.randomness_collective_flip.keeps m.root c s
  root-keeps (anchors_call c) s h = dispatch-root c s.pallet
  root-keeps (sudo_call c) s h = elim (m.sudo_ran m.root (outer_dispatch p m c) s) [
    | inl e ↦ e
    | inr (t, signed, before, after) ↦ after ∙ root-keeps c t h ∙ before
  ]
  root-keeps (sudo_as_call address c) s h =
      elim (m.sudo_as_ran m.root address (outer_dispatch p m c) s) [
        | inl e ↦ e
        | inr (t, who, signed, before, after) ↦ absurd (m.root_unsigned _ signed)
      ]

  -- The call `sudo` gives the sudo key no power over anchors and suspensions, for they want a signed
  -- origin and `sudo` gives the origin `root`: whoever makes it, if its proposal is a call of any
  -- pallet but System, be it one of the pallet of anchors or a `sudo_as` of one, or again a `sudo` of
  -- such a call, it leaves the pallet's storage as it was.
  pub sudo-keeps :
      (c : OuterCall p m) (origin : p.Origin) (s : Chain p m.Rest)
      → IsConfined c
      → (outer_dispatch p m (sudo_call c) origin s).1.pallet ≡ s.pallet
  unfolding outer_dispatch
  sudo-keeps c origin s h = elim (m.sudo_ran origin (outer_dispatch p m c) s) [
    | inl e ↦ e
    | inr (t, signed, before, after) ↦ after ∙ root-keeps c t h ∙ before
  ]

  pub kept-Reach : {s t : State p} → t ≡ s → Reach p s t
  kept-Reach {s} e = subst (λ z. Reach p s z) (sym e) here

  root-ne-signed : (who : p.AccountId) → m.signed who ≢ m.root
  root-ne-signed who e =
      m.root_unsigned who (ap p.ensure_signed (sym e) ∙ m.ensure_signed-signed who)

  passive-keeps :
      (c : OuterCall p m) (origin : p.Origin) (s : Chain p m.Rest)
      → IsPassive c
      → origin ≢ m.root
      → (outer_dispatch p m c origin s).1.pallet ≡ s.pallet
  unfolding outer_dispatch
  passive-keeps (system_call c) origin s h o = m.system_keeps origin c s o
  passive-keeps (timestamp_call c) origin s h o = m.timestamp.keeps origin c s
  passive-keeps (grandpa_call c) origin s h o = m.grandpa.keeps origin c s
  passive-keeps (indices_call c) origin s h o = m.indices.keeps origin c s
  passive-keeps (balances_call c) origin s h o = m.balances.keeps origin c s
  passive-keeps (sudo_call c) origin s h o = sudo-keeps c origin s h
  passive-keeps (set_key_call c) origin s h o = m.set_key.keeps origin c s
  passive-keeps (randomness_collective_flip_call c) origin s h o =
      m.randomness_collective_flip.keeps origin c s
  passive-keeps (anchors_call c) origin s h o = absurd h
  passive-keeps (sudo_as_call address c) origin s h o =
      elim (m.sudo_as_ran origin address (outer_dispatch p m c) s) [
        | inl e ↦ e
        | inr (t, who, signed, before, after) ↦
            after ∙ passive-keeps c (m.signed who) t h (root-ne-signed who) ∙ before
      ]

  -- Whatever call the runtime dispatches with an origin from outside, which is not `root`: if it is
  -- not such a use of the sudo key, and not a call of the pallet, it leaves the pallet's storage as
  -- it was.
  outer_dispatch-keeps :
      (c : OuterCall p m) (origin : p.Origin) (s : Chain p m.Rest)
      → IsOrdinary c
      → origin ≢ m.root
      → ((outer_dispatch p m c origin s).1.pallet ≡ s.pallet)
        ⊎ ((a : Call p.trait) × (c ≡ anchors_call a))
  outer_dispatch-keeps (anchors_call c) origin s h o = inr (c, refl)
  outer_dispatch-keeps c origin s h o = inl (passive-keeps c origin s h o)

  IsConfined-cases : (c : OuterCall p m) → IsConfined c ⊎ (¬ IsConfined c)
  IsConfined-cases (system_call c) = inr (λ h. h)
  IsConfined-cases (sudo_call c) = IsConfined-cases c
  IsConfined-cases (timestamp_call c) = inl tt
  IsConfined-cases (grandpa_call c) = inl tt
  IsConfined-cases (indices_call c) = inl tt
  IsConfined-cases (balances_call c) = inl tt
  IsConfined-cases (set_key_call c) = inl tt
  IsConfined-cases (sudo_as_call address c) = inl tt
  IsConfined-cases (randomness_collective_flip_call c) = inl tt
  IsConfined-cases (anchors_call c) = inl tt

  IsPassive-cases : (c : OuterCall p m) → IsPassive c ⊎ (¬ IsPassive c)
  IsPassive-cases (anchors_call c) = inr (λ h. h)
  IsPassive-cases (sudo_call c) = IsConfined-cases c
  IsPassive-cases (sudo_as_call address c) = IsPassive-cases c
  IsPassive-cases (system_call c) = inl tt
  IsPassive-cases (timestamp_call c) = inl tt
  IsPassive-cases (grandpa_call c) = inl tt
  IsPassive-cases (indices_call c) = inl tt
  IsPassive-cases (balances_call c) = inl tt
  IsPassive-cases (set_key_call c) = inl tt
  IsPassive-cases (randomness_collective_flip_call c) = inl tt

  -- The account signed the origin, and uses the sudo key so.
  abbrev pub IsOverride : p.AccountId → p.Origin → OuterCall p m → Type 0
  IsOverride key origin c = (p.ensure_signed origin ≡ ok key) × (¬ IsOrdinary c)

  sudo-cases :
      (c : OuterCall p m) (origin : p.Origin) (s : Chain p m.Rest)
      → ((outer_dispatch p m (sudo_call c) origin s).1.pallet ≡ s.pallet)
        ⊎ IsOverride (m.key_of s.rest) origin (sudo_call c)
  unfolding outer_dispatch
  sudo-cases c origin s = elim (IsConfined-cases c) [
    | inl h ↦ inl (sudo-keeps c origin s h)
    | inr h ↦ elim (m.sudo_ran origin (outer_dispatch p m c) s) [
      | inl e ↦ inl e
      | inr (t, signed, before, after) ↦ inr (signed, h)
    ]
  ]

  sudo_as-cases :
      (address : m.Address) (c : OuterCall p m) (origin : p.Origin) (s : Chain p m.Rest)
      → origin ≢ m.root
      → ((outer_dispatch p m (sudo_as_call address c) origin s).1.pallet ≡ s.pallet)
        ⊎ IsOverride (m.key_of s.rest) origin (sudo_as_call address c)
  unfolding outer_dispatch
  sudo_as-cases address c origin s o = elim (IsPassive-cases c) [
    | inl h ↦ inl (passive-keeps (sudo_as_call address c) origin s h o)
    | inr h ↦ elim (m.sudo_as_ran origin address (outer_dispatch p m c) s) [
      | inl e ↦ inl e
      | inr (t, who, signed, before, after) ↦ inr (signed, h)
    ]
  ]

  -- Without a look at the call: it leaves the storage of the anchors as it was, or it is a call of
  -- the pallet, or the sudo key signed such a use of it.
  pub outer_dispatch-kept :
      (c : OuterCall p m) (origin : p.Origin) (s : Chain p m.Rest)
      → origin ≢ m.root
      → ((outer_dispatch p m c origin s).1.pallet ≡ s.pallet)
        ⊎ ((a : Call p.trait) × (c ≡ anchors_call a))
        ⊎ IsOverride (m.key_of s.rest) origin c
  outer_dispatch-kept (sudo_call c) origin s o = elim (sudo-cases c origin s) [
    | inl e ↦ inl e
    | inr h ↦ inr (inr h)
  ]
  outer_dispatch-kept (sudo_as_call address c) origin s o =
      elim (sudo_as-cases address c origin s o) [ inl e ↦ inl e | inr h ↦ inr (inr h) ]
  outer_dispatch-kept c origin s o = elim (outer_dispatch-keeps c origin s tt o) [
    | inl e ↦ inl e
    | inr a ↦ inr (inl a)
  ]

  -- A call of the pallet is dispatched to it, and changes nothing else.
  pub anchors_call-kept :
      (c : Call p.trait) (origin : p.Origin) (s : Chain p m.Rest)
      → let after = outer_dispatch p m (anchors_call c) origin s in
        (after.1.pallet ≡ (dispatch p origin c s.pallet).1)
        × (after.1.rest ≡ s.rest)
        × (after.0 ≡ (dispatch p origin c s.pallet).0)
  unfolding outer_dispatch
  anchors_call-kept c origin s = (refl, refl, refl)

  anchors_call-Reach :
      (a : Call p.trait) (origin : p.Origin) (s : Chain p m.Rest)
      → Reach p s.pallet (outer_dispatch p m (anchors_call a) origin s).1.pallet
  unfolding outer_dispatch
  anchors_call-Reach a origin s = next here (call origin a s.pallet)

  -- So the storage of the anchors goes through a history of the pallet's own steps, or the sudo key
  -- signed such a call.
  pub outer_dispatch-cases :
      (c : OuterCall p m) (origin : p.Origin) (s : Chain p m.Rest)
      → origin ≢ m.root
      → Reach p s.pallet (outer_dispatch p m c origin s).1.pallet
        ⊎ IsOverride (m.key_of s.rest) origin c
  outer_dispatch-cases c origin s o = elim (outer_dispatch-kept c origin s o) [
    | inl e ↦ inl (kept-Reach e)
    | inr (inl (a, e)) ↦ inl (rw e (anchors_call-Reach a origin s))
    | inr (inr h) ↦ inr h
  ]
