-- ===== src/Common/Casts.antt =====
-- `boost::lexical_cast` from a text to an integer of a given width.
use Prim.Native.Nat.{ℕ, zero, suc, ◌-◌, ◌%◌, ◌^◌, ◌<◌}
use Prim.Native.Char.{Char}
use Prim.Native.String.{String}
use mathlib.Core.Bool.{true}
use mathlib.Core.Option.{Option, none, some}
use native.Mathlib.Omega.{arith}
use mathlib.Core.Path.{◌≡◌}
use fts.Common.Tests.{ltb, if◌then◌else◌}
use fts.Common.Decimal.{is_digit, read_nat, show_nat, show_nat-cons, read_nat-show_nat}
use fts.Common.Int.{ℤ, pos, negsuc}
use fts.Common.Text.{begins, tail}

abbrev checked : ℕ → (ℕ → ℕ) → Option ℕ → Option ℕ
checked bound f none = none
checked bound f (some n) = if ltb n bound then some (f n) else none

-- To an unsigned type of the width. A minus sign is read, and the number wraps around.
unfoldable pub cast_unsigned : ℕ → String → Option ℕ
cast_unsigned width s =
    if begins b'-' s
    then checked (2 ^ width) (λ n. (2 ^ width - n) % 2 ^ width) (read_nat (tail s))
    else checked (2 ^ width) (λ n. n) (read_nat (if begins b'+' s then tail s else s))

-- To `int`, which is then stored in an `unsigned`.
unfoldable pub cast_int : String → Option ℕ
cast_int s =
    if begins b'-' s
    then checked (suc (2 ^ 31)) (λ n. (2 ^ 32 - n) % 2 ^ 32) (read_nat (tail s))
    else checked (2 ^ 31) (λ n. n) (read_nat (if begins b'+' s then tail s else s))

abbrev pub below : ℕ → (ℕ → ℤ) → Option ℕ → Option ℤ
below bound f none = none
below bound f (some n) = if ltb n bound then some (f n) else none

abbrev pub negated : ℕ → ℤ
negated zero = pos 0
negated (suc n) = negsuc n

-- To `int`, with its sign.
unfoldable pub cast_signed : String → Option ℤ
cast_signed s =
    if begins b'-' s
    then below (suc (2 ^ 31)) negated (read_nat (tail s))
    else below (2 ^ 31) pos (read_nat (if begins b'+' s then tail s else s))

cast_unsigned-plain :
    (width n : ℕ) (t s : String) (c : Char)
    → t ≡ String.◌∷◌ c s
    → is_digit c ≡ true
    → read_nat t ≡ some n
    → n < 2 ^ width
    → cast_unsigned width t ≡ some n
unfolding cast_unsigned
cast_unsigned-plain width n t s c e d r h = rw e (go c d (rw e at r))
  where
    go :
        (c : Char)
        → is_digit c ≡ true
        → read_nat (String.◌∷◌ c s) ≡ some n
        → cast_unsigned width (String.◌∷◌ c s) ≡ some n
    go c d r = ground (arith, d, r, h)

-- A number in range that was written reads back.
pub cast_unsigned-show_nat :
    (width n : ℕ) → n < 2 ^ width → cast_unsigned width (show_nat n) ≡ some n
cast_unsigned-show_nat width n h =
    let (c, s, e, d) = show_nat-cons n in
    cast_unsigned-plain width n (show_nat n) s c e d (read_nat-show_nat n) h

cast_int-plain :
    (n : ℕ) (t s : String) (c : Char)
    → t ≡ String.◌∷◌ c s
    → is_digit c ≡ true
    → read_nat t ≡ some n
    → n < 2 ^ 31
    → cast_int t ≡ some n
unfolding cast_int
cast_int-plain n t s c e d r h = rw e (go c d (rw e at r))
  where
    go :
        (c : Char)
        → is_digit c ≡ true
        → read_nat (String.◌∷◌ c s) ≡ some n
        → cast_int (String.◌∷◌ c s) ≡ some n
    go c d r = ground (arith, d, r, h)

pub cast_int-show_nat : (n : ℕ) → n < 2 ^ 31 → cast_int (show_nat n) ≡ some n
cast_int-show_nat n h =
    let (c, s, e, d) = show_nat-cons n in
    cast_int-plain n (show_nat n) s c e d (read_nat-show_nat n) h
