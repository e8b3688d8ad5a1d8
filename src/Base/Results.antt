-- ===== src/Base/Results.antt =====
-- `Result`, and state passing with failure: what a handler's awaited calls do in order.
use mathlib.Core.Path.{◌≡◌, refl, ap}
use mathlib.Core.Logic.{◌⊎◌, inl, inr}

pub data Result {ℓ κ} (E : Type κ) (A : Type ℓ) : Type (ℓ ⊔ κ) where
  ok : A → Result E A
  err : E → Result E A

-- A step on a state that may fail; what it wrote before it failed stays written.
abbrev pub Step : Type 0 → Type 0 → Type 0 → Type 0
Step W E A = W → Result E A × W

module _ {W E : Type 0} where
  abbrev pub pure : {A : Type 0} → A → Step W E A
  pure a w = (ok a, w)

  abbrev pub fail : {A : Type 0} → E → Step W E A
  fail e w = (err e, w)

  infixl 5 ◌>>=◌ ◌>>◌
  abbrev pub ◌>>=◌ : {A B : Type 0} → Step W E A → (A → Step W E B) → Step W E B
  ◌>>=◌ m f w = let (r, w') = m w in elim r [ ok a ↦ f a w' | err e ↦ (err e, w') ]

  abbrev pub ◌>>◌ : {A B : Type 0} → Step W E A → Step W E B → Step W E B
  m >> k = m >>= λ _. k

  abbrev pub modify : (W → W) → Step W E (Unit {0})
  modify f w = (ok tt, f w)

  abbrev pub gets : {A : Type 0} → (W → A) → Step W E A
  gets f w = (ok (f w), w)

pub Result-cases :
    {E A : Type 0} (r : Result E A) → ((a : A) × (r ≡ ok a)) ⊎ ((e : E) × (r ≡ err e))
Result-cases (ok a) = inl (a, refl)
Result-cases (err e) = inr (e, refl)

-- What a step that succeeded, or failed, hands on.
module _ {W E A B : Type 0} (m : Step W E A) (f : A → Step W E B) (w : W) where
  abbrev resume : Result E A × W → Result E B × W
  resume (r, w') = elim r [ ok a ↦ f a w' | err e ↦ (err e, w') ]

  pub >>=-ok : (a : A) (w' : W) → m w ≡ (ok a, w') → (m >>= f) w ≡ f a w'
  >>=-ok a w' h = ap resume h

  pub >>=-err : (e : E) (w' : W) → m w ≡ (err e, w') → (m >>= f) w ≡ (err e, w')
  >>=-err e w' h = ap resume h
