-- ===== src/Result.antt =====
-- `Result` of the language's library, and a dispatchable's way to run: an action on a state that
-- ends in a value or an error. A change made before the error stays.
use substrate_scaffold.Prelude.{◌≡◌, ◌⊎◌, inl, inr, refl, ap, Bool, true, false}

pub data Result {ℓ κ} (E : Type ℓ) (A : Type κ) : Type (ℓ ⊔ κ) where
  ok : A → Result E A
  err : E → Result E A

pub Result-cases {ℓ κ} :
    {E : Type ℓ} {A : Type κ} (r : Result E A) → ((a : A) × (r ≡ ok a)) ⊎ ((e : E) × (r ≡ err e))
Result-cases (ok a) = inl (a, refl)
Result-cases (err e) = inr (e, refl)

abbrev pub Exec : Type 0 → Type 0 → Type 0 → Type 0
Exec S E A = S → Result E A × S

module _ {S E : Type 0} where
  abbrev pub pure : {A : Type 0} → A → Exec S E A
  pure a s = (ok a, s)

  abbrev pub bind : {A B : Type 0} → (A → Exec S E B) → Result E A × S → Result E B × S
  bind f (ok a, s) = f a s
  bind f (err e, s) = (err e, s)

  infixl 5 ◌>>=◌ ◌>>◌
  abbrev pub ◌>>=◌ : {A B : Type 0} → Exec S E A → (A → Exec S E B) → Exec S E B
  ◌>>=◌ m f s = bind f (m s)

  abbrev pub ◌>>◌ : {B : Type 0} → Exec S E (Unit {0}) → Exec S E B → Exec S E B
  m >> k = m >>= λ _. k

  -- `r?`
  abbrev pub lift : {A : Type 0} → Result E A → Exec S E A
  lift r s = (r, s)

  -- `ensure!(b, e)`
  abbrev pub ensure : Bool → E → Exec S E (Unit {0})
  ensure true e s = (ok tt, s)
  ensure false e s = (err e, s)

  abbrev pub gets : {A : Type 0} → (S → A) → Exec S E A
  gets f s = (ok (f s), s)

  abbrev pub modify : (S → S) → Exec S E (Unit {0})
  modify f s = (ok tt, f s)

  pub bind-ok :
      {A B : Type 0} (f : A → Exec S E B) (out : Result E A × S) (a : A)
      → out.0 ≡ ok a
      → bind f out ≡ f a out.1
  bind-ok f (ok b, s) a h = let same : b ≡ a = cc in ap (λ z. f z s) same
  bind-ok f (err e, s) a h = absurd (cc)
