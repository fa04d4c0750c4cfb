-- ===== src/Uri/RoundTrip.antt =====
-- A URI that is put together from its parts is taken apart into them.
use Prim.Native.Char.{Char}
use mathlib.Core.Option.{some-injective}
use Prim.Native.Nat.{◌<◌, ◌^◌}
use fts.Common.{
  Bool, Bool-cases, String, all_chars, all_chars-concat, all_chars_weaken, ap, arith, concat,
  contains_char, digit_value, drop_while, drop_while-concat, false, inl, inr, is_char, is_digit,
  is_empty_text, ltb, none, not, read_digits, read_nat, read_nat-show_nat, refl, show_nat,
  show_nat-cons, show_nat_all_digits, some, take_while-all, take_while-concat, true, ℕ, ◌*◌, ◌+◌,
  ◌||◌, ◌∙◌, ◌≡◌,
}
use fts.Uri.Parse.{
  extract_port, is_host_char, is_path_char, is_query_char, is_scheme_char, is_space, leading_number,
  parse, parse_host, parse_path, port_number, query_of, split_host, split_last_colon, split_scheme,
  with_port,
}
use fts.Uri.Types.{Uri}

-- `protocol://host:port/path?query`
unfoldable pub write_uri : String → String → ℕ → String → String → String
write_uri protocol host port path query = concat protocol (
    concat "://" (
      concat (concat host (concat ":" (show_nat port)))
        (concat "/" (concat path (concat "?" query)))))

-- A number read by all its digits is read by the digits at the front.
leading_number-read_digits :
    (a n : ℕ) (s : String) → read_digits a s ≡ some n → leading_number a s ≡ n
unfolding leading_number read_digits
leading_number-read_digits a n String.[] h = some-injective a n h
leading_number-read_digits a n (String.◌∷◌ c s) h = elim (Bool-cases (is_digit c)) [
  | inl i ↦ rw i (leading_number-read_digits (a * 10 + digit_value c) n s (rw i at h))
  | inr i ↦ absurd (cc (rw i at h))
]

not_space : (c : Char) → is_digit c ≡ true → is_space c ≡ false
not_space c d = ground (arith, d)

-- No digit is a character below them.
not_char : (k : ℕ) (c : Char) → is_digit c ≡ true → ltb k 48 ≡ true → is_char k c ≡ false
not_char k c d h = ground (arith, d, h)

port_number-cons :
    (n : ℕ) (t s : String) (c : Char)
    → t ≡ String.◌∷◌ c s
    → is_digit c ≡ true
    → read_nat t ≡ some n
    → port_number t ≡ n
unfolding port_number drop_while read_nat
port_number-cons n t s c e d r = rw e (go c d (rw e at r))
  where
    go :
        (c : Char)
        → is_digit c ≡ true
        → read_nat (String.◌∷◌ c s) ≡ some n
        → port_number (String.◌∷◌ c s) ≡ n
    go c d r =
        rw (not_space c d, not_char b'-' c d refl, not_char b'+' c d refl)
          (leading_number-read_digits 0 n (String.◌∷◌ c s) r)

port_number-show_nat : (n : ℕ) → port_number (show_nat n) ≡ n
port_number-show_nat n =
    let (c, s, e, d) = show_nat-cons n in
    port_number-cons n (show_nat n) s c e d (read_nat-show_nat n)

split_last_colon-none : (s : String) → contains_char b':' s ≡ false → split_last_colon s ≡ none
unfolding split_last_colon contains_char
split_last_colon-none String.[] h = refl
split_last_colon-none (String.◌∷◌ c s) h =
    rw (split_last_colon-none s (ground (arith, h)), is_colon c (contains_char b':' s) h) refl
  where
    is_colon : (c : Char) (b : Bool) → (is_char b':' c || b) ≡ false → is_char b':' c ≡ false
    is_colon c b h = ground (arith, h)

split_last_colon-concat :
    (host after : String)
    → contains_char b':' after ≡ false
    → split_last_colon (concat host (String.◌∷◌ ":" after)) ≡ some (host, after)
unfolding split_last_colon
split_last_colon-concat String.[] after h = rw (split_last_colon-none after h) refl
split_last_colon-concat (String.◌∷◌ c host) after h = rw (split_last_colon-concat host after h) refl

without_char :
    (c : ℕ) (s : String) → all_chars (λ d. not (is_char c d)) s ≡ true → contains_char c s ≡ false
unfolding all_chars contains_char
without_char c String.[] h = refl
without_char c (String.◌∷◌ d s) h = ground (arith, h, without_char c s)

-- The characters of the parts.
pub record IsPlainUri (protocol host path query : String) : Type 0 where
  pub protocol_plain : all_chars is_scheme_char protocol ≡ true
  pub protocol_given : is_empty_text protocol ≡ false
  pub host_plain : all_chars is_host_char host ≡ true
  pub path_plain : all_chars is_path_char path ≡ true
  pub query_plain : all_chars is_query_char query ≡ true

split_scheme-concat :
    (protocol rest : String)
    → all_chars is_scheme_char protocol ≡ true
    → is_empty_text protocol ≡ false
    → split_scheme (concat protocol (String.◌∷◌ ":" rest)) ≡ (protocol, rest)
unfolding split_scheme
split_scheme-concat protocol rest h e =
    rw
      (
        take_while-concat is_scheme_char protocol rest ":" h refl,
        drop_while-concat is_scheme_char protocol rest ":" h refl,
        e,
      )
      refl

split_host-concat :
    (host rest : String)
    → all_chars is_host_char host ≡ true
    → split_host (concat "//" (concat host (String.◌∷◌ "/" rest))) ≡ (host, String.◌∷◌ "/" rest)
unfolding split_host
split_host-concat host rest h =
    rw
      (
        take_while-concat is_host_char host rest "/" h refl,
        drop_while-concat is_host_char host rest "/" h refl,
      )
      refl

query_of-all :
    (query : String)
    → all_chars is_query_char query ≡ true
    → query_of (String.◌∷◌ "?" query) ≡ query
unfolding query_of
query_of-all query h = take_while-all is_query_char query h

digit_host : (c : Char) → is_digit c ≡ true → is_host_char c ≡ true
digit_host c d = ground (arith, d)

digit_colon : (c : Char) → is_digit c ≡ true → not (is_char b':' c) ≡ true
digit_colon c d = ground (arith, d)

digit_bracket : (c : Char) → is_digit c ≡ true → not (is_char b']' c) ≡ true
digit_bracket c d = ground (arith, d)

port_plain : (n : ℕ) → all_chars is_host_char (concat ":" (show_nat n)) ≡ true
unfolding all_chars
port_plain n =
    all_chars_weaken is_digit is_host_char (show_nat n) digit_host (show_nat_all_digits n)

extract_port-concat :
    (v : Uri) (host : String) (n : ℕ)
    → extract_port (record v { host = concat host (concat ":" (show_nat n)) })
      ≡ record v { host = host; port = n }
unfolding extract_port
extract_port-concat v host n =
    let digits = show_nat_all_digits n in
    let no_colon =
      without_char b':' (show_nat n)
        (all_chars_weaken is_digit (λ c. not (is_char b':' c)) (show_nat n) digit_colon digits) in
    let no_bracket =
      without_char b']' (show_nat n)
        (all_chars_weaken is_digit (λ c. not (is_char b']' c)) (show_nat n) digit_bracket digits) in
    ap (with_port (record v { host = concat host (concat ":" (show_nat n)) }))
      (split_last_colon-concat host (show_nat n) no_colon)
    ∙ rw (no_bracket, port_number-show_nat n) refl

extract_port_of_parts :
    (uri protocol host : String) {p p' q q' : String}
    → p ≡ p'
    → q ≡ q'
    → extract_port (record {
      full_uri = uri;
      protocol = protocol;
      host = host;
      port = 0;
      path = p;
      query_string = q;
    })
      ≡ extract_port (record {
        full_uri = uri;
        protocol = protocol;
        host = host;
        port = 0;
        path = p';
        query_string = q';
      })
extract_port_of_parts uri protocol host e f = cc (e, f)

parse_path-concat :
    (uri protocol host_text path query : String)
    → all_chars is_path_char path ≡ true
    → all_chars is_query_char query ≡ true
    → parse_path uri protocol (host_text, concat (concat "/" path) (String.◌∷◌ "?" query))
      ≡ extract_port (record {
        full_uri = uri;
        protocol = protocol;
        host = host_text;
        port = 0;
        path = concat "/" path;
        query_string = query;
      })
unfolding parse_path all_chars
parse_path-concat uri protocol host_text path query h k =
    extract_port_of_parts uri protocol host_text
      (take_while-concat is_path_char (concat "/" path) query "?" h refl)
      (ap query_of (drop_while-concat is_path_char (concat "/" path) query "?" h refl)
        ∙ query_of-all query k)

-- A URI that is put together from a protocol, a host, a port, a path and a query, of characters that may
-- stand there, is taken apart into them, for a port that is an `int`.
pub parse-write_uri :
    (protocol host : String) (port : ℕ) (path query : String)
    → IsPlainUri protocol host path query
    → port < 2 ^ 31
    → parse (write_uri protocol host port path query) ≡ record {
      full_uri = write_uri protocol host port path query;
      protocol = protocol;
      host = host;
      port = port;
      path = concat "/" path;
      query_string = query;
    }
unfolding parse parse_host write_uri
parse-write_uri protocol host port path query h in_range =
    let uri = write_uri protocol host port path query in
    let end = concat path (String.◌∷◌ "?" query) in
    let host_text = concat host (concat ":" (show_nat port)) in
    ap (parse_host uri) (
      split_scheme-concat protocol (concat "//" (concat host_text (String.◌∷◌ "/" end)))
        h.protocol_plain h.protocol_given)
    ∙ ap (parse_path uri protocol) (
        split_host-concat host_text end (
          all_chars-concat is_host_char host (concat ":" (show_nat port)) h.host_plain
            (port_plain port)))
    ∙ parse_path-concat uri protocol host_text path query h.path_plain h.query_plain
    ∙ extract_port-concat
        (record {
          full_uri = uri;
          protocol = protocol;
          host = host_text;
          port = 0;
          path = concat "/" path;
          query_string = query;
        })
        host port
