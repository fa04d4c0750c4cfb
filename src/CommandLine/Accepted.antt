-- ===== src/CommandLine/Accepted.antt =====
-- The keys that the server writes are known to the process, and what they set does not end it.
use fts.Common.{
  Bool, List, Result, String, [], cast_int, cast_unsigned, contains_char, err, false, ok, refl,
  some, true, ℕ, ◌&&◌, ◌∷◌, ◌≡◌,
}
use fts.CommandLine.Arguments.{abbreviated_option, exact_option, find_option}
use fts.CommandLine.Known.{case_of, is_known}
use fts.CommandLine.Options.{handle}
use fts.CommandLine.Table.{long_options}
use fts.CommandLine.Values.{Exit, Parsed, TransferTypes, cast_long}

abbrev pub is_ok : Result Exit Parsed → Bool
is_ok (err e) = false
is_ok (ok p) = true

abbrev pub every : (String → Bool) → List String → Bool
every p [] = true
every p (x ∷ xs) = p x && every p xs

abbrev pub flag_keys : List String
flag_keys =
    "strict-copy" ∷ "reuse" ∷ "job-m-replica" ∷ "job-multihop" ∷ "overwrite" ∷ "archiving"
    ∷ "dst-file-report" ∷ "last-hop" ∷ "last-replica" ∷ "udt" ∷ "ipv6" ∷ "ipv4" ∷ "skip-evict"
    ∷ "disable-fallback" ∷ "monitoring" ∷ "no-delegation" ∷ "no-streaming" ∷ "retrieve-se-token"
    ∷ []

abbrev pub text_keys : List String
text_keys =
    "job-id" ∷ "source" ∷ "destination" ∷ "activity" ∷ "checksum" ∷ "checksum-mode"
    ∷ "3rd-party-turl" ∷ "token-bringonline" ∷ "dest-token-desc" ∷ "source-token-desc" ∷ "vo"
    ∷ "user-dn" ∷ "proxy" ∷ "oauth" ∷ "source-issuer" ∷ "dest-issuer" ∷ "auth-method" ∷ "copy-mode"
    ∷ "cloud-config" ∷ "infosystem" ∷ "alias" ∷ "file-metadata" ∷ "transfer-metadata"
    ∷ "job-metadata" ∷ "logDir" ∷ "msgDir" ∷ []

-- The options whose values are numbers of 31 bits, or more.
abbrev pub number_keys : List String
number_keys =
    "user-filesize" ∷ "scitag" ∷ "ping-interval" ∷ "nstreams" ∷ "tcp-buffersize" ∷ "timeout"
    ∷ "sec-per-mb" ∷ "retry" ∷ "retry_max" ∷ "debug" ∷ "file-id" ∷ []

module _ (types : TransferTypes) where
  abbrev pub is_handled : Parsed → String → String → Bool
  is_handled p value key = is_ok (handle types (case_of key) value p)

  pub flags_known : every (is_known false) flag_keys ≡ true
  unfolding is_known long_options find_option exact_option contains_char
  flags_known = refl

  pub flags_handled : (p : Parsed) → every (is_handled p "") flag_keys ≡ true
  unfolding case_of long_options find_option exact_option handle
  flags_handled p = refl

  pub texts_known : every (is_known true) text_keys ≡ true
  unfolding is_known long_options find_option exact_option contains_char
  texts_known = refl

  pub texts_handled : (p : Parsed) (v : String) → every (is_handled p v) text_keys ≡ true
  unfolding case_of long_options find_option exact_option handle
  texts_handled p v = refl

  pub numbers_known : every (is_known true) number_keys ≡ true
  unfolding is_known long_options find_option exact_option contains_char abbreviated_option
  numbers_known = refl

  pub numbers_handled :
      (p : Parsed) (v : String) (n : ℕ)
      → cast_int v ≡ some n
      → cast_unsigned 32 v ≡ some n
      → cast_unsigned 64 v ≡ some n
      → cast_long v ≡ some n
      → every (is_handled p v) number_keys ≡ true
  unfolding case_of long_options find_option exact_option abbreviated_option handle
  numbers_handled p v n i u u' l = rw (i, u, u', l) refl
