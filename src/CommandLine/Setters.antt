-- ===== src/CommandLine/Setters.antt =====
-- UrlCopyCmd.cpp: the setters of one option or one flag, and the getters.
use fts.Common.{
  Bool, Dict, Option, String, cast_signed, find, if◌then◌else◌, none, pos, some, ℤ, ◌==◌,
  string_key, nat_key,
}
use fts.CommandLine.Command.{Command, set_flag, set_int, set_option}

unfoldable pub set_log_dir : String → Command → Command
set_log_dir path = set_option "logDir" path

unfoldable pub set_ping_interval : ℤ → Command → Command
set_ping_interval interval = set_int "ping-interval" interval

unfoldable pub set_infosystem : String → Command → Command
set_infosystem infosys = set_option "infosystem" infosys

unfoldable pub set_debug_level : ℤ → Command → Command
set_debug_level level = set_int "debug" level

unfoldable pub set_proxy : String → Command → Command
set_proxy path = set_option "proxy" path

unfoldable pub set_fts_name : String → Command → Command
set_fts_name hostname = set_option "alias" hostname

unfoldable pub set_cloud_config : String → Command → Command
set_cloud_config path = set_option "cloud-config" path

unfoldable pub set_oauth_file : String → Command → Command
set_oauth_file path = set_option "oauth" path

unfoldable pub set_auth_method : String → Command → Command
set_auth_method method = set_option "auth-method" method

unfoldable pub set_retrieve_se_token : Bool → Command → Command
set_retrieve_se_token set = set_flag "retrieve-se-token" set

unfoldable pub set_seconds_per_mb : ℤ → Command → Command
set_seconds_per_mb value = set_int "sec-per-mb" value

unfoldable pub set_number_of_retries : ℤ → Command → Command
set_number_of_retries count = set_int "retry" count

unfoldable pub set_max_number_of_retries : ℤ → Command → Command
set_max_number_of_retries retry_max = set_int "retry_max" retry_max

unfoldable pub set_disable_delegation : Bool → Command → Command
set_disable_delegation set = set_flag "no-delegation" set

unfoldable pub set_disable_streaming : Bool → Command → Command
set_disable_streaming set = set_flag "no-streaming" set

unfoldable pub set_overwrite : Bool → Command → Command
set_overwrite set = set_flag "overwrite" set

unfoldable pub set_third_party_turl : String → Command → Command
set_third_party_turl turl = set_option "3rd-party-turl" turl

-- The value of `options[key]`.
unfoldable pub option_value : String → Dict String String → String
option_value key m = elim (find key m) [ none ↦ "" | some value ↦ value ]

-- `options[key]` as a number, where none is 0: `none` is `bad_lexical_cast`.
unfoldable pub get_int : String → Command → Option ℤ
unfolding option_value
get_int key c =
    if option_value key c.options == ""
    then some (pos 0)
    else cast_signed (option_value key c.options)
