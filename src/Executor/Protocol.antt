-- ===== src/Executor/Protocol.antt =====
-- TransferFile.h: the protocol parameters of a job, from their text.
use text.Mathlib.Text.{starts_with}
use fts.Common.{
  List, Option, String, [], cast_signed, drop_chars, false, if◌then◌else◌, none, pos, some,
  split_at, true, ℤ, ◌==◌, ◌∷◌, string_key, nat_key,
}
use fts.CommandLine.Types.{ProtocolParameters}

unfoldable pub default_parameters : ProtocolParameters
default_parameters = record {
  nostreams = pos 1;
  timeout = pos 0;
  buffersize = pos 0;
  strict_copy = false;
  ipv6 = none;
  udt = none;
  s3_alternate = false;
}

abbrev pub with_int : Option ℤ → (ℤ → ProtocolParameters) → Option ProtocolParameters
with_int none f = none
with_int (some n) f = some (f n)

-- `none` is `bad_lexical_cast`. A word that is not known is skipped.
unfoldable pub set_parameter : String → ProtocolParameters → Option ProtocolParameters
set_parameter word p =
    if starts_with word "nostreams:"
    then with_int (cast_signed (drop_chars 10 word)) (λ n. record p { nostreams = n })
    else if starts_with word "timeout:"
    then with_int (cast_signed (drop_chars 8 word)) (λ n. record p { timeout = n })
    else if starts_with word "buffersize:"
    then with_int (cast_signed (drop_chars 11 word)) (λ n. record p { buffersize = n })
    else if word == "strict"
    then some (record p { strict_copy = true })
    else if word == "ipv4"
    then some (record p { ipv6 = some false })
    else if word == "ipv6"
    then some (record p { ipv6 = some true })
    else if word == "s3alternate"
    then some (record p { s3_alternate = true })
    else some p

unfoldable pub set_parameters : List String → ProtocolParameters → Option ProtocolParameters
set_parameters [] p = some p
set_parameters (word ∷ words) p = elim (set_parameter word p) [
  | none ↦ none
  | some p' ↦ set_parameters words p'
]

unfoldable pub protocol_parameters : String → Option ProtocolParameters
unfolding default_parameters set_parameters
protocol_parameters serialized = set_parameters (split_at b',' serialized) default_parameters
