-- ===== src/Common/Text.antt =====
-- Texts: splitting at a character, and tests on characters.
use Prim.Native.Nat.{ℕ, zero, suc}
use Prim.Native.Char.{Char, code}
use Prim.Native.String.{String}
use mathlib.Core.Path.{◌≡◌, refl, ap}
use mathlib.Core.Logic.{inl, inr}
use mathlib.Core.Bool.{Bool, true, false, ◌||◌, ◌&&◌}
use mathlib.Core.List.{List, [], ◌∷◌}
use native.Mathlib.Omega.{arith}
use fts.Common.Tests.{Bool-cases, nat_beq, if◌then◌else◌}

-- `+` of `std::string`
abbrev pub concat : String → String → String
concat String.[] t = t
concat (String.◌∷◌ c s) t = String.◌∷◌ c (concat s t)

abbrev pub is_char : ℕ → Char → Bool
is_char c d = nat_beq (code d) c

-- The longest front of a text whose characters pass the test, and the rest.
unfoldable pub take_while : (Char → Bool) → String → String
take_while p String.[] = String.[]
take_while p (String.◌∷◌ c s) =
    let rest = take_while p s in if p c then String.◌∷◌ c rest else String.[]

unfoldable pub drop_while : (Char → Bool) → String → String
drop_while p String.[] = String.[]
drop_while p (String.◌∷◌ c s) = let rest = drop_while p s in if p c then rest else String.◌∷◌ c s

abbrev pub tail : String → String
tail String.[] = String.[]
tail (String.◌∷◌ c s) = s

-- `substr(n)`
abbrev pub drop_chars : ℕ → String → String
drop_chars zero s = s
drop_chars (suc n) String.[] = String.[]
drop_chars (suc n) (String.◌∷◌ c s) = drop_chars n s

abbrev pub is_empty_text : String → Bool
is_empty_text String.[] = true
is_empty_text (String.◌∷◌ c s) = false

-- Whether the text begins with the character.
abbrev pub begins : ℕ → String → Bool
begins c String.[] = false
begins c (String.◌∷◌ d s) = is_char c d

unfoldable pub contains_char : ℕ → String → Bool
contains_char c String.[] = false
contains_char c (String.◌∷◌ d s) = is_char c d || contains_char c s

abbrev with_first : Char → List String → List String
with_first c [] = String.◌∷◌ c String.[] ∷ []
with_first c (s ∷ parts) = String.◌∷◌ c s ∷ parts

-- `boost::split` at each occurrence of one character.
unfoldable pub split_at : ℕ → String → List String
split_at c String.[] = String.[] ∷ []
split_at c (String.◌∷◌ d s) =
    let parts = split_at c s in if is_char c d then String.[] ∷ parts else with_first d parts

-- A text before a separator is the first part.
pub split_at-append :
    (c : ℕ) (d : Char) (s rest : String)
    → is_char c d ≡ true
    → contains_char c s ≡ false
    → split_at c (concat s (String.◌∷◌ d rest)) ≡ s ∷ split_at c rest
unfolding split_at contains_char
split_at-append c d String.[] rest e h = ground (arith, e)
split_at-append c d (String.◌∷◌ x s) rest e h = ground (arith, e, h, split_at-append c d s rest e)

pub split_at_last : (c : ℕ) (s : String) → contains_char c s ≡ false → split_at c s ≡ s ∷ []
unfolding split_at contains_char
split_at_last c String.[] h = refl
split_at_last c (String.◌∷◌ x s) h = ground (arith, h, split_at_last c s)

pub contains_char-append :
    (c : ℕ) (s t : String)
    → contains_char c s ≡ false
    → contains_char c t ≡ false
    → contains_char c (concat s t) ≡ false
unfolding contains_char
contains_char-append c String.[] t h k = k
contains_char-append c (String.◌∷◌ x s) t h k = ground (arith, h, contains_char-append c s t)

-- Whether every character passes the test.
unfoldable pub all_chars : (Char → Bool) → String → Bool
all_chars p String.[] = true
all_chars p (String.◌∷◌ c s) = p c && all_chars p s

module _ (p : Char → Bool) where
  pub take_while-concat :
      (s r : String) (d : Char)
      → all_chars p s ≡ true
      → p d ≡ false
      → take_while p (concat s (String.◌∷◌ d r)) ≡ s
  unfolding take_while all_chars
  take_while-concat String.[] r d h e = rw e refl
  take_while-concat (String.◌∷◌ c s) r d h e = elim (Bool-cases (p c)) [
    | inl i ↦ rw i (ap (String.◌∷◌ c) (take_while-concat s r d (rw i at h) e))
    | inr i ↦ absurd (cc (rw i at h))
  ]

  pub drop_while-concat :
      (s r : String) (d : Char)
      → all_chars p s ≡ true
      → p d ≡ false
      → drop_while p (concat s (String.◌∷◌ d r)) ≡ String.◌∷◌ d r
  unfolding drop_while all_chars
  drop_while-concat String.[] r d h e = rw e refl
  drop_while-concat (String.◌∷◌ c s) r d h e = elim (Bool-cases (p c)) [
    | inl i ↦ rw i (drop_while-concat s r d (rw i at h) e)
    | inr i ↦ absurd (cc (rw i at h))
  ]

  pub take_while-all : (s : String) → all_chars p s ≡ true → take_while p s ≡ s
  unfolding take_while all_chars
  take_while-all String.[] h = refl
  take_while-all (String.◌∷◌ c s) h = elim (Bool-cases (p c)) [
    | inl i ↦ rw i (ap (String.◌∷◌ c) (take_while-all s (rw i at h)))
    | inr i ↦ absurd (cc (rw i at h))
  ]

  pub all_chars-concat :
      (s r : String) → all_chars p s ≡ true → all_chars p r ≡ true → all_chars p (concat s r) ≡ true
  unfolding all_chars
  all_chars-concat String.[] r h k = k
  all_chars-concat (String.◌∷◌ c s) r h k = elim (Bool-cases (p c)) [
    | inl i ↦ rw i (all_chars-concat s r (rw i at h) k)
    | inr i ↦ absurd (cc (rw i at h))
  ]

  pub all_chars_weaken :
      (q : Char → Bool) (s : String)
      → ((c : Char) → p c ≡ true → q c ≡ true)
      → all_chars p s ≡ true
      → all_chars q s ≡ true
  unfolding all_chars
  all_chars_weaken q String.[] f h = refl
  all_chars_weaken q (String.◌∷◌ c s) f h = elim (Bool-cases (p c)) [
    | inl i ↦ rw (f c i) (all_chars_weaken q s f (rw i at h))
    | inr i ↦ absurd (cc (rw i at h))
  ]
