-- ===== src/CommandLine/MetadataBack.antt =====
-- The metadata that the process reads is that which the server was given.
use Prim.Native.Char.{Char, code}
use text.Mathlib.TextEquality.{Char-path}
use text.Mathlib.TextBridge.{of_list}
use fts.Common.{
  Bool, Bool-cases, List, String, [], ap, arith, contains_char, false, if◌then◌else◌, inl, inr, map,
  nat_beq, refl, subst, sym, true, ◌&&◌, ◌∙◌, ◌∷◌, ◌≡◌,
}
use fts.CommandLine.Command.{prepare_metadata_string, replace_char}
use fts.CommandLine.Values.{metadata_of}
use fts.UrlCopy.Redaction.{chars, is_question, replace_metadata_string, unescape_quotes}

-- The text with each quote behind a backslash.
escape : List Char → List Char
escape [] = []
escape (c ∷ s) = let rest = escape s in if nat_beq (code c) 34 then "\\" ∷ c ∷ rest else c ∷ rest

and_false : (b : Bool) → (b && false) ≡ false
and_false true = refl
and_false false = refl

unescape-quoted :
    (c : Char) (s : List Char)
    → nat_beq (code c) 34 ≡ true
    → unescape_quotes ("\\" ∷ c ∷ s) ≡ c ∷ unescape_quotes s
unfolding unescape_quotes
unescape-quoted c s h = rw (h, unescape_quotes) refl

unescape-beside :
    (c d : Char) (s : List Char)
    → nat_beq (code d) 34 ≡ false
    → unescape_quotes (c ∷ d ∷ s) ≡ c ∷ unescape_quotes (d ∷ s)
unfolding unescape_quotes
unescape-beside c d s h = rw (h, unescape_quotes, and_false (nat_beq (code c) 92)) refl

unescape-plain :
    (c : Char) (s : List Char) → unescape_quotes (c ∷ escape s) ≡ c ∷ unescape_quotes (escape s)
unfolding unescape_quotes escape
unescape-plain c [] = refl
unescape-plain c (d ∷ s) = elim (Bool-cases (nat_beq (code d) 34)) [
  | inl e ↦ rw e (unescape-beside c "\\" (d ∷ escape s) refl)
  | inr e ↦ rw e (unescape-beside c d (escape s) e)
]

unescape-escape : (s : List Char) → unescape_quotes (escape s) ≡ s
unfolding escape
unescape-escape [] = unfold unescape_quotes in refl
unescape-escape (c ∷ s) = elim (Bool-cases (nat_beq (code c) 34)) [
  | inl e ↦ rw e (unescape-quoted c (escape s) e ∙ ap (◌∷◌ c) (unescape-escape s))
  | inr e ↦ rw e (unescape-plain c s ∙ ap (◌∷◌ c) (unescape-escape s))
]

abbrev restored : Char → Char
restored c = if is_question c then " " else c

Back : Char → String → Type 0
Back c t =
    map restored (chars (replace_char b'"' "\\\"" (replace_char b' ' "?" (String.◌∷◌ c t))))
    ≡ escape (c ∷ chars t)

Back-other :
    (c : Char) (t : String)
    → nat_beq (code c) b' ' ≡ false
    → nat_beq (code c) b'"' ≡ false
    → nat_beq (code c) b'?' ≡ false
    → map restored (chars (replace_char b'"' "\\\"" (replace_char b' ' "?" t))) ≡ escape (chars t)
    → Back c t
unfolding Back replace_char escape
Back-other c t e q r h = rw (e, q, r) (ap (◌∷◌ c) h)

restored-prepared :
    (t : String)
    → contains_char b'?' t ≡ false
    → map restored (chars (replace_char b'"' "\\\"" (replace_char b' ' "?" t))) ≡ escape (chars t)
unfolding replace_char contains_char escape Back
restored-prepared String.[] h = refl
restored-prepared (String.◌∷◌ c t) h =
    let back = restored-prepared t (ground (arith, h)) in
    elim (Bool-cases (nat_beq (code c) b' ')) [
      | inl e ↦
          subst (λ d. Back d t) (sym (Char-path c " " (ground (arith, e)))) (ap (◌∷◌ " ") back)
      | inr e ↦ elim (Bool-cases (nat_beq (code c) b'"')) [
        | inl q ↦
            subst (λ d. Back d t) (sym (Char-path c "\"" (ground (arith, q))))
              (ap (λ s. "\\" ∷ "\"" ∷ s) back)
        | inr q ↦ Back-other c t e q (ground (arith, h)) back
      ]
    ]

of_list-chars : (t : String) → of_list (chars t) ≡ t
of_list-chars String.[] = refl
of_list-chars (String.◌∷◌ c t) = ap (String.◌∷◌ c) (of_list-chars t)

-- Metadata without a question mark reads back as it was, whatever spaces, quotes and backslashes it has.
pub metadata_of-prepare_metadata_string :
    (t : String) → contains_char b'?' t ≡ false → metadata_of (prepare_metadata_string t) ≡ t
unfolding metadata_of replace_metadata_string prepare_metadata_string
metadata_of-prepare_metadata_string t h =
    ap (λ s. of_list (unescape_quotes s)) (restored-prepared t h)
    ∙ ap of_list (unescape-escape (chars t))
    ∙ of_list-chars t
