-- ===== src/Common/Decimal.antt =====
-- Numbers in decimal, as `boost::lexical_cast` writes and reads them.
use Prim.Native.Nat.{ℕ, zero, suc, ◌+◌, ◌-◌, ◌*◌, ◌/◌, ◌%◌, ◌<◌}
use Prim.Native.Char.{Char, code}
use Prim.Native.String.{String}
use mathlib.Core.Path.{◌≡◌, refl, ap, ◌∙◌}
use mathlib.Core.Bool.{Bool, true, false, ◌&&◌}
use mathlib.Core.Option.{Option, none, some}
use native.Mathlib.Omega.{arith}
use mathlib.Core.Logic.{inl, inr}
use fts.Common.Tests.{ltb, leb, Bool-cases, if◌then◌else◌}
use fts.Common.Text.{all_chars, contains_char, is_char}
use fts.Common.Int.{ℤ, pos, negsuc}

abbrev pub digit : ℕ → Char
digit zero = "0"
digit (suc zero) = "1"
digit (suc (suc zero)) = "2"
digit (suc (suc (suc zero))) = "3"
digit (suc (suc (suc (suc zero)))) = "4"
digit (suc (suc (suc (suc (suc zero))))) = "5"
digit (suc (suc (suc (suc (suc (suc zero)))))) = "6"
digit (suc (suc (suc (suc (suc (suc (suc zero))))))) = "7"
digit (suc (suc (suc (suc (suc (suc (suc (suc zero)))))))) = "8"
digit n = "9"

abbrev pub is_digit : Char → Bool
is_digit c = leb b'0' (code c) && leb (code c) b'9'

abbrev pub digit_value : Char → ℕ
digit_value c = code c - b'0'

-- The digits of a number before a text, with fuel for as many digits.
unfoldable pub digits : ℕ → ℕ → String → String
digits zero n rest = rest
digits (suc fuel) n rest = elim (ltb n 10) [
  | true ↦ String.◌∷◌ (digit n) rest
  | false ↦ digits fuel (n / 10) (String.◌∷◌ (digit (n % 10)) rest)
]

unfoldable pub show_nat : ℕ → String
unfolding digits
show_nat n = digits (suc n) n ""

unfoldable pub show_int : ℤ → String
unfolding show_nat
show_int (pos n) = show_nat n
show_int (negsuc n) = String.◌∷◌ "-" (show_nat (suc n))

-- The number that the digits add to those that were read.
unfoldable pub read_digits : ℕ → String → Option ℕ
read_digits n String.[] = some n
read_digits n (String.◌∷◌ c s) =
    let rest = read_digits (n * 10 + digit_value c) s in if is_digit c then rest else none

unfoldable pub read_nat : String → Option ℕ
unfolding read_digits
read_nat String.[] = none
read_nat (String.◌∷◌ c s) = read_digits 0 (String.◌∷◌ c s)

is_digit-digit : (n : ℕ) → is_digit (digit n) ≡ true
is_digit-digit zero = refl
is_digit-digit (suc zero) = refl
is_digit-digit (suc (suc zero)) = refl
is_digit-digit (suc (suc (suc zero))) = refl
is_digit-digit (suc (suc (suc (suc zero)))) = refl
is_digit-digit (suc (suc (suc (suc (suc zero))))) = refl
is_digit-digit (suc (suc (suc (suc (suc (suc zero)))))) = refl
is_digit-digit (suc (suc (suc (suc (suc (suc (suc zero))))))) = refl
is_digit-digit (suc (suc (suc (suc (suc (suc (suc (suc zero)))))))) = refl
is_digit-digit n = refl

digit_value-digit : (n : ℕ) → n < 10 → digit_value (digit n) ≡ n
digit_value-digit zero h = refl
digit_value-digit (suc zero) h = refl
digit_value-digit (suc (suc zero)) h = refl
digit_value-digit (suc (suc (suc zero))) h = refl
digit_value-digit (suc (suc (suc (suc zero)))) h = refl
digit_value-digit (suc (suc (suc (suc (suc zero))))) h = refl
digit_value-digit (suc (suc (suc (suc (suc (suc zero)))))) h = refl
digit_value-digit (suc (suc (suc (suc (suc (suc (suc zero))))))) h = refl
digit_value-digit (suc (suc (suc (suc (suc (suc (suc (suc zero)))))))) h = refl
digit_value-digit (suc (suc (suc (suc (suc (suc (suc (suc (suc zero))))))))) h = refl
digit_value-digit n h = absurd (omega arith)

read_digits-digit :
    (a n : ℕ) (rest : String)
    → n < 10
    → read_digits a (String.◌∷◌ (digit n) rest) ≡ read_digits (a * 10 + n) rest
unfolding read_digits
read_digits-digit a n rest h =
    rw (is_digit-digit n) (ap (λ d. read_digits (a * 10 + d) rest) (digit_value-digit n h))

pub read_digits-digits :
    (fuel n : ℕ) (rest : String)
    → n < fuel
    → read_digits 0 (digits fuel n rest) ≡ read_digits n rest
unfolding digits
read_digits-digits zero n rest h = absurd (omega arith)
read_digits-digits (suc fuel) n rest h = elim (Bool-cases (ltb n 10)) [
  | inl small ↦
      rw (small, digits)
        (read_digits-digit 0 n rest (ground arith)
          ∙ ap (λ (k : ℕ). read_digits k rest) (omega arith))
  | inr large ↦
      rw (large, digits)
        (read_digits-digits fuel (n / 10) (String.◌∷◌ (digit (n % 10)) rest) (ground arith)
          ∙ read_digits-digit (n / 10) (n % 10) rest (omega arith)
          ∙ ap (λ (k : ℕ). read_digits k rest) (omega arith))
]

digits-cons :
    (fuel n : ℕ) (rest : String)
    → (c : Char) × (s : String) × (digits (suc fuel) n rest ≡ String.◌∷◌ c s) × (is_digit c ≡ true)
unfolding digits
digits-cons zero n rest = elim (Bool-cases (ltb n 10)) [
  | inl small ↦ (digit n, rest, rw (small, digits) refl, is_digit-digit n)
  | inr large ↦ (digit (n % 10), rest, rw (large, digits) refl, is_digit-digit (n % 10))
]
digits-cons (suc fuel) n rest = elim (Bool-cases (ltb n 10)) [
  | inl small ↦ (digit n, rest, rw (small, digits) refl, is_digit-digit n)
  | inr large ↦
      let (c, s, e, d) = digits-cons fuel (n / 10) (String.◌∷◌ (digit (n % 10)) rest) in
      (c, s, rw (large, digits) e, d)
]

-- A number begins with a digit.
pub show_nat-cons :
    (n : ℕ) → (c : Char) × (s : String) × (show_nat n ≡ String.◌∷◌ c s) × (is_digit c ≡ true)
unfolding show_nat
show_nat-cons n = digits-cons n n ""

read_nat_of_cons : (t s : String) (c : Char) → t ≡ String.◌∷◌ c s → read_nat t ≡ read_digits 0 t
unfolding read_nat
read_nat_of_cons t s c e = rw e refl

digit_no_space : (n : ℕ) → is_char b' ' (digit n) ≡ false
digit_no_space zero = refl
digit_no_space (suc zero) = refl
digit_no_space (suc (suc zero)) = refl
digit_no_space (suc (suc (suc zero))) = refl
digit_no_space (suc (suc (suc (suc zero)))) = refl
digit_no_space (suc (suc (suc (suc (suc zero))))) = refl
digit_no_space (suc (suc (suc (suc (suc (suc zero)))))) = refl
digit_no_space (suc (suc (suc (suc (suc (suc (suc zero))))))) = refl
digit_no_space (suc (suc (suc (suc (suc (suc (suc (suc zero)))))))) = refl
digit_no_space n = refl

no_space_cons :
    (n : ℕ) (rest : String)
    → contains_char b' ' rest ≡ false
    → contains_char b' ' (String.◌∷◌ (digit n) rest) ≡ false
unfolding contains_char
no_space_cons n rest h = rw (digit_no_space n) h

digits_no_space :
    (fuel n : ℕ) (rest : String)
    → contains_char b' ' rest ≡ false
    → contains_char b' ' (digits fuel n rest) ≡ false
unfolding digits
digits_no_space zero n rest h = h
digits_no_space (suc fuel) n rest h = elim (Bool-cases (ltb n 10)) [
  | inl small ↦ rw (small, digits) (no_space_cons n rest h)
  | inr large ↦
      rw (large, digits)
        (digits_no_space fuel (n / 10) (String.◌∷◌ (digit (n % 10)) rest)
          (no_space_cons (n % 10) rest h))
]

digits_all_digits :
    (fuel n : ℕ) (rest : String)
    → all_chars is_digit rest ≡ true
    → all_chars is_digit (digits fuel n rest) ≡ true
unfolding digits all_chars
digits_all_digits zero n rest h = h
digits_all_digits (suc fuel) n rest h = elim (Bool-cases (ltb n 10)) [
  | inl small ↦ rw (small, digits, is_digit-digit n) h
  | inr large ↦
      rw (large, digits)
        (digits_all_digits fuel (n / 10) (String.◌∷◌ (digit (n % 10)) rest)
          (rw (is_digit-digit (n % 10)) h))
]

pub show_nat_all_digits : (n : ℕ) → all_chars is_digit (show_nat n) ≡ true
unfolding show_nat all_chars
show_nat_all_digits n = digits_all_digits (suc n) n "" refl

pub show_nat_no_space : (n : ℕ) → contains_char b' ' (show_nat n) ≡ false
unfolding show_nat contains_char
show_nat_no_space n = digits_no_space (suc n) n "" refl

-- What was written reads back.
pub read_nat-show_nat : (n : ℕ) → read_nat (show_nat n) ≡ some n
unfolding show_nat read_digits
read_nat-show_nat n =
    let (c, s, e, _) = digits-cons n n "" in
    read_nat_of_cons (digits (suc n) n "") s c e
    ∙ read_digits-digits (suc n) n "" (omega arith)
    ∙ ended n
  where
    ended : (n : ℕ) → read_digits n "" ≡ some n
    ended n = refl
