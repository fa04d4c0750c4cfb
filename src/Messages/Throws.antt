-- ===== src/Messages/Throws.antt =====
-- What an action may throw: every exception that leaves it satisfies a condition.
use fts.Common.{
  Action, Bool, Result, continue, err, false, if◌then◌else◌, ok, pure, skip, true, ◌>>=◌, ◌≡◌,
}

module _ {S : Type 0} {E : Type 0} where
  pub record Throws {A : Type 0} (P : E → Type 0) (m : Action S E A) : Type 0 where
    pub only : (s : S) (x : E) → (m s).0 ≡ err x → P x

  module _ (P : E → Type 0) where
    pub Throws-bind :
        {A : Type 0} {B : Type 0} (m : Action S E A) (f : A → Action S E B)
        → Throws P m
        → ((a : A) → Throws P (f a))
        → Throws P (m >>= f)
    Throws-bind {A} m f pm pf = record { only = λ s x h. after (m s) (pm.only s) x h }
      where
        after :
            (r : Result E A × S)
            → ((x : E) → r.0 ≡ err x → P x)
            → (x : E) → (continue r.0 f r.1).0 ≡ err x
            → P x
        after (ok a, s) p x h = (pf a).only s x h
        after (err y, s) p x h = p x (cc h)

    pub Throws-if :
        {A : Type 0} (b : Bool) (m n : Action S E A)
        → Throws P m
        → Throws P n
        → Throws P (if b then m else n)
    Throws-if true m n pm pn = pm
    Throws-if false m n pm pn = pn

    pub Throws-pure : {A : Type 0} (a : A) → Throws P (pure a)
    Throws-pure a = record { only = λ s x h. absurd (cc h) }

    pub Throws-skip : Throws P skip
    Throws-skip = record { only = λ s x h. absurd (cc h) }

    pub ruleset throws_rules = (Throws-bind, Throws-if, Throws-pure, Throws-skip)
