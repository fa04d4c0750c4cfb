-- ===== src/Common/Effects.antt =====
-- Code that reads and writes a state and may throw. What was written before an exception stays written.
use mathlib.Core.Path.{◌≡◌, refl}
use mathlib.Core.Bool.{Bool, true, false}
use fts.Common.Tests.{if◌then◌else◌}
use fts.Common.Outcome.{Result, ok, err}

abbrev pub Action {ℓ κ μ} : Type ℓ → Type κ → Type μ → Type (ℓ ⊔ κ ⊔ μ)
Action S E A = S → Result E A × S

module _ {ℓ κ} {S : Type ℓ} {E : Type κ} where
  abbrev pub pure {μ} : {A : Type μ} → A → Action S E A
  pure a s = (ok a, s)

  abbrev pub throw {μ} : {A : Type μ} → E → Action S E A
  throw e s = (err e, s)

  abbrev pub continue {μ ν} :
      {A : Type μ} {B : Type ν} → Result E A → (A → Action S E B) → Action S E B
  continue (ok a) f s = f a s
  continue (err e) f s = (err e, s)

  infixl 5 ◌>>=◌ ◌>>◌
  abbrev pub ◌>>=◌ {μ ν} :
      {A : Type μ} {B : Type ν} → Action S E A → (A → Action S E B) → Action S E B
  ◌>>=◌ m f s = let (r, s') = m s in continue r f s'

  abbrev pub ◌>>◌ {μ ν} : {A : Type μ} {B : Type ν} → Action S E A → Action S E B → Action S E B
  m >> k = m >>= λ _. k

  abbrev pub modify : (S → S) → Action S E (Unit {0})
  modify f s = (ok tt, f s)

  abbrev pub skip : Action S E (Unit {0})
  skip s = (ok tt, s)

  -- A condition on the state that an action keeps, whether it throws or not.
  pub record Preserves {κ' μ} {A : Type μ} (P : S → Type κ') (m : Action S E A)
      : Type (ℓ ⊔ κ') where
    pub at : (s : S) → P s → P (m s).1

  module _ {κ'} (P : S → Type κ') where
    pub Preserves-bind {μ ν} :
        {A : Type μ} {B : Type ν} (m : Action S E A) (f : A → Action S E B)
        → Preserves P m
        → ((a : A) → Preserves P (f a))
        → Preserves P (m >>= f)
    Preserves-bind {A} m f pm pf = record { at = λ s p. after (m s) (pm.at s p) }
      where
        after : (r : Result E A × S) → P r.1 → P (continue r.0 f r.1).1
        after (ok a, s) p = (pf a).at s p
        after (err e, s) p = p

    pub Preserves-if {μ} :
        {A : Type μ} (b : Bool) (m n : Action S E A)
        → Preserves P m
        → Preserves P n
        → Preserves P (if b then m else n)
    Preserves-if true m n pm pn = pm
    Preserves-if false m n pm pn = pn

    -- In a branch it is known which way the test went.
    pub Preserves-test {μ} :
        {A : Type μ} (b : Bool) (m n : Action S E A)
        → (b ≡ true → Preserves P m)
        → (b ≡ false → Preserves P n)
        → Preserves P (if b then m else n)
    Preserves-test true m n pm pn = pm refl
    Preserves-test false m n pm pn = pn refl

    pub Preserves-pure {μ} : {A : Type μ} (a : A) → Preserves P (pure a)
    Preserves-pure a = record { at = λ s p. p }

    pub Preserves-throw {μ} : {A : Type μ} (e : E) → Preserves P (throw {A = A} e)
    Preserves-throw e = record { at = λ s p. p }

    pub Preserves-skip : Preserves P skip
    Preserves-skip = record { at = λ s p. p }

    pub ruleset preserves_rules =
        (Preserves-bind, Preserves-if, Preserves-pure, Preserves-throw, Preserves-skip)

  -- What an action that ends without an exception has done in its two parts.
  pub ok-bind {μ ν} :
      {A : Type μ} {B : Type ν} (m : Action S E A) (f : A → Action S E B) (s s' : S) (b : B)
      → (m >>= f) s ≡ (ok b, s')
      → (a : A) × (s₁ : S) × (m s ≡ (ok a, s₁)) × (f a s₁ ≡ (ok b, s'))
  ok-bind {A} m f s s' b h = parts (m s) refl h
    where
      parts :
          (r : Result E A × S)
          → m s ≡ r
          → continue r.0 f r.1 ≡ (ok b, s')
          → (a : A) × (s₁ : S) × (m s ≡ (ok a, s₁)) × (f a s₁ ≡ (ok b, s'))
      parts (ok a, s₁) e h = (a, s₁, e, h)
      parts (err x, s₁) e h = absurd (cc h)
