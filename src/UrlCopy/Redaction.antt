-- ===== src/UrlCopy/Redaction.antt =====
-- `sanitizeQueryString` and `replaceMetadataString` of url-copy/heuristics.cpp, over characters.
use Prim.Native.Char.{Char, code}
use text.Mathlib.TextBridge.{of_list}
use fts.Common.{
  Each, Bool, Bool-cases, List, String, [], ap, arith, false, if◌then◌else◌, inl, inr, leb, map,
  nat_beq, refl, sym, true, ℕ, ◌&&◌, ◌++◌, ◌||◌, ◌∙◌, ◌∷◌, ◌≡◌, ◌≢◌,
}

-- The characters of a text.
abbrev pub chars : String → List Char
chars String.[] = []
chars (String.◌∷◌ c s) = c ∷ chars s

abbrev in_range : ℕ → ℕ → ℕ → Bool
in_range low high c = leb low c && leb c high

-- `allowedOpaque`: the letters, the digits and ~-_.+&=%#?
unfoldable pub is_opaque : Char → Bool
is_opaque character =
    let c = code character in
    in_range b'a' b'z' c
    || in_range b'A' b'Z' c
    || in_range b'0' b'9' c
    || nat_beq c b'~'
    || nat_beq c b'-'
    || nat_beq c b'_'
    || nat_beq c b'.'
    || nat_beq c b'+'
    || nat_beq c b'&'
    || nat_beq c b'='
    || nat_beq c b'%'
    || nat_beq c b'#'
    || nat_beq c b'?'

abbrev pub question : Char
question = "?"

abbrev pub is_question : Char → Bool
is_question c = nat_beq (code c) b'?'

abbrev pub redacted : List Char
redacted = chars "<redacted>"

-- The loop, at the rest of the text: it looks for the next `?`, or, behind one that was found, drops
-- the characters up to the first that is not allowed. The text that it puts in holds no `?`, so the
-- next search may start behind it.
unfoldable mutual
  pub find_question : List Char → List Char
  find_question [] = []
  find_question (c ∷ s) = elim (is_question c) [
    | true ↦ c ∷ redacted ++ skip_opaque s
    | false ↦ c ∷ find_question s
  ]

  pub skip_opaque : List Char → List Char
  skip_opaque [] = []
  skip_opaque (c ∷ s) = elim (is_opaque c) [ true ↦ skip_opaque s | false ↦ c ∷ find_question s ]

-- The text that the code returns.
unfoldable pub sanitize_query_string : List Char → List Char
unfolding find_question
sanitize_query_string text = find_question text

abbrev pub Stops : List Char → Type 0
Stops [] = Unit
Stops (c ∷ s) = is_opaque c ≡ false

-- Behind every `?` stands the replacement, and then nothing or a character that ends a query.
abbrev pub IsRedacted : List Char → Type 0
IsRedacted [] = Unit
IsRedacted (c ∷ s) =
    (code c ≡ b'?' → (rest : List Char) × (s ≡ redacted ++ rest) × Stops rest) × IsRedacted s

plain-IsRedacted : (c : Char) (s : List Char) → code c ≢ b'?' → IsRedacted s → IsRedacted (c ∷ s)
plain-IsRedacted c s h r = (λ e. absurd (h e), r)

abbrev pub NoQuestion : List Char → Type 0
NoQuestion = Each (λ c. code c ≢ b'?')

append-IsRedacted : (r s : List Char) → NoQuestion r → IsRedacted s → IsRedacted (r ++ s)
append-IsRedacted [] s h v = v
append-IsRedacted (c ∷ r) s h v = plain-IsRedacted c (r ++ s) h.0 (append-IsRedacted r s h.1 v)

redacted-NoQuestion : NoQuestion redacted
redacted-NoQuestion = omega arith

question-IsRedacted :
    (c : Char) (s : List Char) → IsRedacted s → Stops s → IsRedacted (c ∷ redacted ++ s)
question-IsRedacted c s v stops =
    (λ e. (s, refl, stops), append-IsRedacted redacted s redacted-NoQuestion v)

question-is_opaque : is_opaque question ≡ true
unfolding is_opaque
question-is_opaque = refl

not-question : (c : Char) → is_opaque c ≡ false → code c ≢ b'?'
unfolding is_opaque
not-question c h e = ground arith

mutual
  unfolding find_question skip_opaque

  find_question-IsRedacted : (s : List Char) → IsRedacted (find_question s)
  find_question-IsRedacted [] = tt
  find_question-IsRedacted (c ∷ s) = elim (Bool-cases (is_question c)) [
    | inl e ↦
        rw (e, find_question)
          (question-IsRedacted c (skip_opaque s) (skip_opaque-IsRedacted s).0
            (skip_opaque-IsRedacted s).1)
    | inr e ↦
        rw (e, find_question)
          (plain-IsRedacted c (find_question s) (ground arith) (find_question-IsRedacted s))
  ]

  skip_opaque-IsRedacted : (s : List Char) → IsRedacted (skip_opaque s) × Stops (skip_opaque s)
  skip_opaque-IsRedacted [] = (tt, tt)
  skip_opaque-IsRedacted (c ∷ s) = elim (Bool-cases (is_opaque c)) [
    | inl e ↦ rw (e, skip_opaque) (skip_opaque-IsRedacted s)
    | inr e ↦
        rw (e, skip_opaque)
          (plain-IsRedacted c (find_question s) (not-question c e) (find_question-IsRedacted s), e)
  ]

skip_opaque-Each :
    (q z : List Char) → Each (λ c. is_opaque c ≡ true) q → skip_opaque (q ++ z) ≡ skip_opaque z
unfolding skip_opaque
skip_opaque-Each [] z h = refl
skip_opaque-Each (c ∷ q) z h = rw (h.0, skip_opaque) (skip_opaque-Each q z h.1)

mutual
  unfolding find_question skip_opaque

  find_question_any :
      (a q r z : List Char)
      → Each (λ c. is_opaque c ≡ true) q
      → Each (λ c. is_opaque c ≡ true) r
      → find_question (a ++ (question ∷ (q ++ z))) ≡ find_question (a ++ (question ∷ (r ++ z)))
  find_question_any [] q r z hq hr =
      ap (λ s. question ∷ redacted ++ s) (skip_opaque-Each q z hq ∙ sym (skip_opaque-Each r z hr))
  find_question_any (c ∷ a) q r z hq hr = elim (Bool-cases (is_question c)) [
    | inl e ↦ rw (e, find_question) (ap (λ s. c ∷ redacted ++ s) (skip_opaque_any a q r z hq hr))
    | inr e ↦ rw (e, find_question) (ap (◌∷◌ c) (find_question_any a q r z hq hr))
  ]

  skip_opaque_any :
      (a q r z : List Char)
      → Each (λ c. is_opaque c ≡ true) q
      → Each (λ c. is_opaque c ≡ true) r
      → skip_opaque (a ++ (question ∷ (q ++ z))) ≡ skip_opaque (a ++ (question ∷ (r ++ z)))
  skip_opaque_any [] q r z hq hr =
      rw (question-is_opaque, skip_opaque) (skip_opaque-Each q z hq ∙ sym (skip_opaque-Each r z hr))
  skip_opaque_any (c ∷ a) q r z hq hr = elim (Bool-cases (is_opaque c)) [
    | inl e ↦ rw (e, skip_opaque) (skip_opaque_any a q r z hq hr)
    | inr e ↦ rw (e, skip_opaque) (ap (◌∷◌ c) (find_question_any a q r z hq hr))
  ]

-- In the text that is logged, every `?` is followed by the replacement, and that by the end or by a
-- character that cannot stand in a query.
pub sanitize-IsRedacted : (text : List Char) → IsRedacted (sanitize_query_string text)
unfolding sanitize_query_string
sanitize-IsRedacted text = find_question-IsRedacted text

-- A query leaves no trace: two texts that differ only in the characters of a query behind a `?` are
-- logged alike.
pub sanitize_any_query :
    (before query other after : List Char)
    → Each (λ c. is_opaque c ≡ true) query
    → Each (λ c. is_opaque c ≡ true) other
    → sanitize_query_string (before ++ (question ∷ (query ++ after)))
      ≡ sanitize_query_string (before ++ (question ∷ (other ++ after)))
unfolding sanitize_query_string
sanitize_any_query before query other after hq ho = find_question_any before query other after hq ho

not_question_test : (c : Char) → code c ≢ b'?' → is_question c ≡ false
not_question_test c h = ground arith

-- A text with no `?` is logged as it is.
pub sanitize_plain : (text : List Char) → NoQuestion text → sanitize_query_string text ≡ text
unfolding sanitize_query_string find_question
sanitize_plain [] h = refl
sanitize_plain (c ∷ s) h =
    rw (not_question_test c h.0, find_question) (ap (◌∷◌ c) (sanitize_plain s h.1))

-- `boost::replace_all_copy` of `\"` by `"`, from the left.
unfoldable pub unescape_quotes : List Char → List Char
unescape_quotes [] = []
unescape_quotes (c ∷ []) = c ∷ []
unescape_quotes (c ∷ d ∷ s) = elim (nat_beq (code c) 92 && nat_beq (code d) 34) [
  | true ↦ d ∷ unescape_quotes s
  | false ↦ c ∷ unescape_quotes (d ∷ s)
]

unfoldable pub replace_metadata_string : List Char → List Char
unfolding unescape_quotes
replace_metadata_string text = unescape_quotes (map (λ c. if is_question c then " " else c) text)

-- The redaction of a text, character by character.
unfoldable pub sanitize : String → String
unfolding sanitize_query_string
sanitize text = of_list (sanitize_query_string (chars text))
