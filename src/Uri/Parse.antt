-- ===== src/Uri/Parse.antt =====
-- `Uri::parse` and `extractPort` of common/Uri.cpp. The regular expression is that of RFC 2396: each of
-- its groups takes the longest run of the characters that it allows.
use Prim.Native.Char.{Char, code}
use fts.Common.{
  Bool, Option, String, begins, contains_char, digit_value, drop_while, if◌then◌else◌, is_char,
  is_digit, is_empty_text, leb, none, not, refl, some, tail, take_while, ℕ, ◌%◌, ◌&&◌, ◌*◌, ◌+◌,
  ◌-◌, ◌^◌, ◌||◌, ◌≡◌,
}
use fts.Uri.Types.{Uri}

abbrev pub is_scheme_char : Char → Bool
is_scheme_char c = not (is_char b':' c || is_char b'/' c || is_char b'?' c || is_char b'#' c)

abbrev pub is_host_char : Char → Bool
is_host_char c = not (is_char b'/' c || is_char b'?' c || is_char b'#' c)

abbrev pub is_path_char : Char → Bool
is_path_char c = not (is_char b'?' c || is_char b'#' c)

abbrev pub is_query_char : Char → Bool
is_query_char c = not (is_char b'#' c)

-- `(([^:/?#]+):)?`: the protocol, if there is one, and what follows.
unfoldable pub split_scheme : String → String × String
split_scheme s =
    let scheme = take_while is_scheme_char s in
    let rest = drop_while is_scheme_char s in
    if not (is_empty_text scheme) && begins b':' rest then (scheme, tail rest) else ("", s)

-- `(//([^/?#]*))?`
unfoldable pub split_host : String → String × String
split_host s =
    let rest = tail (tail s) in
    if begins b'/' s && begins b'/' (tail s)
    then (take_while is_host_char rest, drop_while is_host_char rest)
    else ("", s)

-- `(\?([^#]*))?`
unfoldable pub query_of : String → String
query_of s = if begins b'?' s then take_while is_query_char (tail s) else ""

-- What stands before and after the last colon, if there is one.
unfoldable pub split_last_colon : String → Option (String × String)
split_last_colon String.[] = none
split_last_colon (String.◌∷◌ c s) = elim (split_last_colon s) [
  | some (before, after) ↦ some (String.◌∷◌ c before, after)
  | none ↦ if is_char b':' c then some ("", s) else none
]

abbrev pub is_space : Char → Bool
is_space c = is_char b' ' c || (leb 9 (code c) && leb (code c) 13)

-- The digits at the front of a text.
unfoldable pub leading_number : ℕ → String → ℕ
leading_number n String.[] = n
leading_number n (String.◌∷◌ c s) =
    let rest = leading_number (n * 10 + digit_value c) s in if is_digit c then rest else n

-- `atoi`, as an `unsigned` takes it. Its behaviour on a number out of range is undefined.
unfoldable pub port_number : String → ℕ
unfolding leading_number
port_number text =
    let s = drop_while is_space text in
    if begins b'-' s
    then (2 ^ 32 - leading_number 0 (tail s) % 2 ^ 32) % 2 ^ 32
    else if begins b'+' s
    then leading_number 0 (tail s)
    else leading_number 0 s

-- An IPv6 address without a port has its last bracket behind the last colon.
abbrev pub with_port : Uri → Option (String × String) → Uri
with_port u none = u
with_port u (some (before, after)) =
    if contains_char b']' after then u else record u { host = before; port = port_number after }

unfoldable pub extract_port : Uri → Uri
unfolding split_last_colon port_number
extract_port u = with_port u (split_last_colon u.host)

-- The parts behind the host.
unfoldable pub parse_path : String → String → String × String → Uri
unfolding extract_port query_of
parse_path uri protocol (host, s) = extract_port (record {
  full_uri = uri;
  protocol = protocol;
  host = host;
  path = take_while is_path_char s;
  query_string = query_of (drop_while is_path_char s);
  port = 0;
})

unfoldable pub parse_host : String → String × String → Uri
unfolding parse_path split_host
parse_host uri (protocol, s) = parse_path uri protocol (split_host s)

unfoldable pub parse : String → Uri
unfolding parse_host split_scheme
parse uri = parse_host uri (split_scheme uri)

parse_run : parse "https://host.cern.ch:8443/a/b?x=1#top" ≡ record {
  full_uri = "https://host.cern.ch:8443/a/b?x=1#top";
  protocol = "https";
  host = "host.cern.ch";
  path = "/a/b";
  query_string = "x=1";
  port = 8443;
}
unfolding parse extract_port take_while drop_while contains_char
parse_run = refl
