-- ===== src/CommandLine/Good.antt =====
-- The flags and the options of the server, which the process accepts.
use Prim.Native.Char.{Char}
use fts.Common.{
  Bool, Bool-cases, Each, List, String, [], ap, arith, cast_int-show_nat, cast_unsigned-show_nat,
  contains_char, false, inl, inr, is_digit, read_nat, read_nat-show_nat, refl, show_nat,
  show_nat-cons, show_nat_no_space, some, str_beq_iff, sym, true, ℕ, ◌<◌, ◌==◌, ◌^◌, ◌∙◌, ◌∷◌, ◌≡◌,
  string_key, nat_key,
}
use fts.CommandLine.Accepted.{
  every, flag_keys, flags_handled, flags_known, is_handled, number_keys, numbers_handled,
  numbers_known, text_keys, texts_handled, texts_known,
}
use fts.CommandLine.Arguments.{abbreviated_option, exact_option, find_option}
use fts.CommandLine.Command.{Command, has_flag}
use fts.CommandLine.Known.{case_of, is_known}
use fts.CommandLine.Options.{handle}
use fts.CommandLine.Table.{long_options}
use fts.CommandLine.Values.{Parsed, TransferTypes, cast_long}
use fts.CommandLine.Words.{HasNoSpace}

every_has :
    (p : String → Bool) (k : String) (keys : List String)
    → every p keys ≡ true
    → has_flag k keys ≡ true
    → p k ≡ true
unfolding has_flag
every_has p k [] h i = absurd (cc i)
every_has p k (x ∷ xs) h i = elim (Bool-cases (x == k)) [
  | inl e ↦ ap p (sym ((str_beq_iff x k).0 e)) ∙ ground (arith, h)
  | inr e ↦ every_has p k xs (ground (arith, h)) (rw e at i)
]

cast_long-plain :
    (n : ℕ) (t s : String) (c : Char)
    → t ≡ String.◌∷◌ c s
    → is_digit c ≡ true
    → read_nat t ≡ some n
    → n < 2 ^ 63
    → cast_long t ≡ some n
unfolding cast_long
cast_long-plain n t s c e d r h = rw e (go c d (rw e at r))
  where
    go :
        (c : Char)
        → is_digit c ≡ true
        → read_nat (String.◌∷◌ c s) ≡ some n
        → cast_long (String.◌∷◌ c s) ≡ some n
    go c d r = ground (arith, d, r, h)

cast_long-show_nat : (n : ℕ) → n < 2 ^ 63 → cast_long (show_nat n) ≡ some n
cast_long-show_nat n h =
    let (c, s, e, d) = show_nat-cons n in
    cast_long-plain n (show_nat n) s c e d (read_nat-show_nat n) h

module _ (types : TransferTypes) where
  -- What the process makes of a flag, or of an option, is no error.
  abbrev pub IsGoodFlag : String → Type 0
  IsGoodFlag f = (is_known false f ≡ true) × ((p : Parsed) → is_handled types p "" f ≡ true)

  abbrev pub IsGoodOption : String × String → Type 0
  IsGoodOption e =
      ((is_known true e.0 ≡ true) × HasNoSpace e.1)
      × ((p : Parsed) → is_handled types p e.1 e.0 ≡ true)

  pub record IsAccepted (c : Command) : Type 0 where
    pub flags_good : Each IsGoodFlag c.flags
    pub options_good : Each IsGoodOption c.options

  pub good_flag : (k : String) → has_flag k flag_keys ≡ true → IsGoodFlag k
  good_flag k h = (
    every_has (is_known false) k flag_keys (flags_known types) h,
    λ p. every_has (is_handled types p "") k flag_keys (flags_handled types p) h,
  )

  pub good_text : (k v : String) → has_flag k text_keys ≡ true → HasNoSpace v → IsGoodOption (k, v)
  good_text k v h i = (
    (every_has (is_known true) k text_keys (texts_known types) h, i),
    λ p. every_has (is_handled types p v) k text_keys (texts_handled types p v) h,
  )

  pub good_number :
      (k : String) (n : ℕ)
      → has_flag k number_keys ≡ true
      → n < 2 ^ 31
      → IsGoodOption (k, show_nat n)
  good_number k n h i = (
    (every_has (is_known true) k number_keys (numbers_known types) h, show_nat_no_space n),
    λ p.
        every_has (is_handled types p (show_nat n)) k number_keys
          (numbers_handled types p (show_nat n) n (cast_int-show_nat n i)
            (cast_unsigned-show_nat 32 n (omega arith)) (cast_unsigned-show_nat 64 n (omega arith))
            (cast_long-show_nat n (omega arith)))
          h,
  )

  pub good_file_id : (n : ℕ) → n < 2 ^ 64 → IsGoodOption ("file-id", show_nat n)
  unfolding case_of long_options find_option exact_option abbreviated_option handle is_known
      contains_char
  good_file_id n i = ((refl, show_nat_no_space n), λ p. rw (cast_unsigned-show_nat 64 n i) refl)

  pub good_filesize : (n : ℕ) → n < 2 ^ 63 → IsGoodOption ("user-filesize", show_nat n)
  unfolding case_of long_options find_option exact_option abbreviated_option handle is_known
      contains_char
  good_filesize n i = ((refl, show_nat_no_space n), λ p. rw (cast_long-show_nat n i) refl)
