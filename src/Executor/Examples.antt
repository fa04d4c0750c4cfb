-- ===== src/Executor/Examples.antt =====
-- A transfer whose command the process reads.
use fts.Common.{
  Bool-cases, String, [], ap, arith, cast_signed, contains_char, false, inl, inr, map, none, pos,
  read_digits, read_nat, refl, some, split_at, true, ◌++◌, ◌==◌, ◌∷◌, ◌≡◌, string_key, nat_key,
}
use fts.CommandLine.Accepted.{is_ok}
use fts.CommandLine.Arguments.{
  abbreviated_option, exact_option, find_option, get_argv, read_arguments,
}
use fts.CommandLine.Command.{Command, generate_parameters, prepare_metadata_string}
use fts.CommandLine.Known.{IsSendable, is_known}
use fts.CommandLine.MetadataBack.{metadata_of-prepare_metadata_string}
use fts.CommandLine.Options.{handle_events}
use fts.CommandLine.Parse.{start}
use fts.CommandLine.ReadBack.{flag_event, option_event, read_arguments-get_argv}
use fts.CommandLine.Table.{long_options}
use fts.CommandLine.Types.{ProtocolParameters}
use fts.CommandLine.Values.{TransferTypes, metadata_of}
use fts.CommandLine.Words.{HasNoSpace}
use fts.Executor.Accepts.{build_command-handled}
use fts.Executor.Build.{build_command, build_from, get_auth_method, map_option, parameters_of}
use fts.Executor.Protocol.{default_parameters, protocol_parameters, set_parameter, set_parameters}
use fts.Executor.Samples.{hop, link, no_auth, no_issuer, server}
use fts.Executor.Steps.{IsPlainLink, IsPlainServer, IsPlainTransfer}

abbrev gfal_types : TransferTypes
gfal_types = record { pull = "3rd pull"; push = "3rd push"; streamed = "streamed" }

abbrev small_command : Command
small_command = record {
  options = ("checksum", "ADLER32:1a2b") ∷ ("retry_max", "3") ∷ [];
  flags = "reuse" ∷ "udt" ∷ [];
  is_ipv6_explicit = false;
}

small_command-IsSendable : IsSendable small_command
unfolding is_known long_options find_option exact_option abbreviated_option contains_char
small_command-IsSendable = record {
  flags_known = (refl, (refl, tt));
  options_known = ((refl, refl), ((refl, refl), tt));
}

read_arguments-get_argv_example :
    read_arguments long_options none (get_argv (generate_parameters small_command))
    ≡ map flag_event small_command.flags ++ map option_event small_command.options
read_arguments-get_argv_example = read_arguments-get_argv small_command small_command-IsSendable

abbrev hop_parameters : ProtocolParameters
hop_parameters = record {
  nostreams = pos 4;
  timeout = pos 0;
  buffersize = pos 0;
  strict_copy = true;
  ipv6 = some true;
  udt = none;
  s3_alternate = false;
}

parameters_run : parameters_of link hop ≡ some hop_parameters
unfolding parameters_of protocol_parameters set_parameters set_parameter default_parameters split_at
    cast_signed read_nat read_digits
parameters_run = refl

abbrev hop_command : Command
hop_command = build_from no_auth no_issuer link server hop hop_parameters

hop_command_run : build_command no_auth no_issuer link server hop ≡ some hop_command
unfolding build_command
hop_command_run = ap (map_option (build_from no_auth no_issuer link server hop)) parameters_run

link-IsPlainLink : IsPlainLink link
unfolding contains_char
link-IsPlainLink = record {
  sec_per_mb_int = refl;
  streams_int = refl;
  timeout_int = refl;
  debug_count = (1, refl, omega arith);
  turl_plain = refl;
  retry_times_int = refl;
  retry_int = refl;
}

server-IsPlainServer : IsPlainServer server
unfolding contains_char
server-IsPlainServer = record {
  infosys_plain = refl;
  host_plain = refl;
  proxy_plain = refl;
  logs_plain = refl;
  msg_plain = refl;
  ping_count = (60, refl, omega arith);
  cloud_plain = refl;
  oauth_plain = refl;
}

hop-IsPlainTransfer : IsPlainTransfer hop
unfolding contains_char
hop-IsPlainTransfer = record {
  file_id_bound = omega arith;
  user_filesize_bound = refl;
  scitag_int = refl;
  vo_name_plain = refl;
  job_id_plain = refl;
  source_plain = refl;
  dest_plain = refl;
  checksum_plain = refl;
  checksum_mode_plain = refl;
  dest_token_plain = refl;
  source_token_plain = refl;
  bring_online_plain = refl;
  activity_plain = refl;
}

no_auth-HasNoSpace : (text : String) → HasNoSpace (get_auth_method no_auth text)
unfolding get_auth_method contains_char
no_auth-HasNoSpace text = elim (Bool-cases (text == "null")) [
  | inl e ↦ rw e refl
  | inr e ↦ rw e refl
]

no_issuer-HasNoSpace :
    (text key value : String) → no_issuer text key ≡ some value → HasNoSpace value
no_issuer-HasNoSpace text key value h = absurd (cc h)

build_command-handled_example :
    is_ok (
      handle_events gfal_types
        (read_arguments long_options none (get_argv (generate_parameters hop_command)))
        start)
    ≡ true
build_command-handled_example =
    build_command-handled gfal_types no_auth no_issuer link server hop hop_command start
      no_issuer-HasNoSpace no_auth-HasNoSpace link-IsPlainLink server-IsPlainServer
      hop-IsPlainTransfer hop_command_run

metadata_of-prepare_metadata_string_example :
    metadata_of (prepare_metadata_string "{\"a b\": \"c\"}") ≡ "{\"a b\": \"c\"}"
metadata_of-prepare_metadata_string_example =
    metadata_of-prepare_metadata_string "{\"a b\": \"c\"}" (unfold contains_char in refl)
