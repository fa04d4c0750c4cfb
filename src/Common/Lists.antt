-- ===== src/Common/Lists.antt =====
-- Lists measured by native numbers, Boolean filters, and predicates on every element.
use Prim.Native.Nat.{ℕ, zero, suc, ◌+◌, ◌≤◌}
use mathlib.Core.Path.{◌≡◌, refl}
use mathlib.Core.List.{List, [], ◌∷◌, ◌++◌}
use mathlib.Core.Bool.{Bool, true, false, ◌||◌}
use mathlib.Core.Option.{Option, none, some}
use native.Mathlib.Omega.{arith}
use fts.Common.Tests.{if◌then◌else◌}

module _ {ℓ} {A : Type ℓ} where
  abbrev pub length : List A → ℕ
  length [] = 0
  length (x ∷ xs) = suc (length xs)

  abbrev pub get_elem? : List A → ℕ → Option A
  get_elem? [] i = none
  get_elem? (x ∷ xs) zero = some x
  get_elem? (x ∷ xs) (suc i) = get_elem? xs i

  abbrev pub is_empty : List A → Bool
  is_empty [] = true
  is_empty (x ∷ xs) = false

  -- The elements that pass a Boolean test, in order.
  abbrev pub keep : (A → Bool) → List A → List A
  keep p [] = []
  keep p (x ∷ xs) = let rest = keep p xs in if p x then x ∷ rest else rest

  abbrev pub any : (A → Bool) → List A → Bool
  any p [] = false
  any p (x ∷ xs) = p x || any p xs

  abbrev pub Each {κ} : (A → Type κ) → List A → Type κ
  Each P [] = Unit
  Each P (x ∷ xs) = P x × Each P xs

  pub length-append : (xs ys : List A) → length (xs ++ ys) ≡ length xs + length ys
  length-append [] ys = omega arith
  length-append (x ∷ xs) ys = omega (arith, length-append xs ys)

  pub length-keep-le : (p : A → Bool) (xs : List A) → length (keep p xs) ≤ length xs
  length-keep-le p [] = omega arith
  length-keep-le p (x ∷ xs) = ground (arith, length-keep-le p xs)

  pub Each-append {κ} :
      (P : A → Type κ) (xs ys : List A) → Each P xs → Each P ys → Each P (xs ++ ys)
  Each-append P [] ys hx hy = hy
  Each-append P (x ∷ xs) ys hx hy = (hx.0, Each-append P xs ys hx.1 hy)

  pub Each-map {κ κ'} :
      (P : A → Type κ) (Q : A → Type κ') (xs : List A)
      → ((x : A) → P x → Q x)
      → Each P xs
      → Each Q xs
  Each-map P Q [] f h = tt
  Each-map P Q (x ∷ xs) f h = (f x h.0, Each-map P Q xs f h.1)

  Each-if {κ} :
      (P : A → Type κ) (b : Bool) (x : A) (xs : List A)
      → (b ≡ true → P x)
      → Each P xs
      → Each P (if b then x ∷ xs else xs)
  Each-if P true x xs f h = (f refl, h)
  Each-if P false x xs f h = h

  -- A condition that holds of what passes the test holds of what the filter keeps.
  pub Each-keep {κ} :
      (P : A → Type κ) (p : A → Bool) (xs : List A)
      → Each (λ x. p x ≡ true → P x) xs
      → Each P (keep p xs)
  Each-keep P p [] h = tt
  Each-keep P p (x ∷ xs) h = Each-if P (p x) x (keep p xs) h.0 (Each-keep P p xs h.1)
