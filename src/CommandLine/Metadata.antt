-- ===== src/CommandLine/Metadata.antt =====
-- The metadata on the command line.
use Prim.Native.Char.{code}
use fts.Common.{
  Bool-cases, String, arith, contains_char, contains_char-append, false, inl, inr, nat_beq, refl, ℕ,
  ◌≡◌,
}
use fts.CommandLine.Command.{prepare_metadata_string, replace_char}
use fts.CommandLine.Words.{HasNoSpace}

replace_char_clears :
    (c : ℕ) (by s : String)
    → contains_char c by ≡ false
    → contains_char c (replace_char c by s) ≡ false
unfolding replace_char contains_char
replace_char_clears c by String.[] h = refl
replace_char_clears c by (String.◌∷◌ x s) h = elim (Bool-cases (nat_beq (code x) c)) [
  | inl e ↦ rw e (contains_char-append c by (replace_char c by s) h (replace_char_clears c by s h))
  | inr e ↦ rw (e, e) (replace_char_clears c by s h)
]

replace_char_keeps :
    (c d : ℕ) (by s : String)
    → contains_char c by ≡ false
    → contains_char c s ≡ false
    → contains_char c (replace_char d by s) ≡ false
unfolding replace_char contains_char
replace_char_keeps c d by String.[] h k = refl
replace_char_keeps c d by (String.◌∷◌ x s) h k = elim (Bool-cases (nat_beq (code x) d)) [
  | inl e ↦ rw e (
      contains_char-append c by (replace_char d by s) h
        (replace_char_keeps c d by s h (ground (arith, k))))
  | inr e ↦ rw e (ground (arith, k, replace_char_keeps c d by s h (ground (arith, k))))
]

-- The metadata that is written has no space.
pub prepare_metadata_string-HasNoSpace : (t : String) → HasNoSpace (prepare_metadata_string t)
unfolding prepare_metadata_string contains_char
prepare_metadata_string-HasNoSpace t =
    replace_char_keeps b' ' b'"' "\\\"" (replace_char b' ' "?" t) refl
      (replace_char_clears b' ' "?" t refl)
