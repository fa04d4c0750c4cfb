-- ===== src/CommandLine/Options.antt =====
-- UrlCopyOpts.cpp: what each option sets.
use fts.Common.{
  List, Result, String, [], cast_int, cast_unsigned, err, false, if◌then◌else◌, ltb, nat_beq, ok,
  some, true, ℕ, ◌∷◌,
}
use fts.CommandLine.Arguments.{Event, found, unrecognized}
use fts.CommandLine.Values.{
  Exit, Parsed, TransferTypes, cast_long, checksum_mode_of, metadata_of, set_checksum, set_opts,
  set_reference, translate_copy_mode, usage, with_number,
}
use fts.Uri.Parse.{parse}

-- The cases of the `switch` on jobs and files.
unfoldable pub set_job : ℕ → String → Parsed → Result Exit Parsed
set_job opt arg p =
    if nat_beq opt 100
    then set_reference (λ t. record t { job_id = arg }) p
    else if nat_beq opt 101
    then with_number (cast_unsigned 64 arg)
        (λ n. record p { reference = record p.reference { file_id = n } })
    else if nat_beq opt 102
    then set_reference (λ t. record t { source = parse arg }) p
    else if nat_beq opt 103
    then set_reference (λ t. record t { destination = parse arg }) p
    else if nat_beq opt 104
    then with_number (cast_long arg)
        (λ n. record p { reference = record p.reference { user_file_size = n } })
    else if nat_beq opt 105
    then set_opts (λ o. record o { bulk_file = arg }) p
    else if nat_beq opt 200
    then set_opts (λ o. record o { is_session_reuse = true }) p
    else if nat_beq opt 202
    then set_reference (λ t. record t { is_multiple_replica_job = true }) p
    else if nat_beq opt 203
    then set_reference (λ t. record t { is_last_replica = true }) p
    else if nat_beq opt 204
    then set_reference (λ t. record t { is_multihop_job = true }) p
    else if nat_beq opt 205
    then set_reference (λ t. record t { is_last_hop = true }) p
    else if nat_beq opt 206
    then set_reference (λ t. record t { is_archiving = true }) p
    else if nat_beq opt 207
    then set_reference (λ t. record t { activity = arg }) p
    else err usage

-- The cases of the `switch` on checks and tokens.
unfoldable pub set_checks : ℕ → String → Parsed → Result Exit Parsed
set_checks opt arg p =
    if nat_beq opt 300
    then set_reference (set_checksum arg) p
    else if nat_beq opt 301
    then set_reference (λ t. record t { checksum_mode = checksum_mode_of arg }) p
    else if nat_beq opt 302
    then set_opts (λ o. record o { strict_copy = true }) p
    else if nat_beq opt 303
    then set_opts (λ o. record o { dst_file_report = true }) p
    else if nat_beq opt 304
    then set_opts (λ o. record o { third_party_turl = arg }) p
    else if nat_beq opt 305
    then with_number (cast_unsigned 32 arg)
        (λ n. record p { reference = record p.reference { scitag = n } })
    else if nat_beq opt 400
    then set_reference (λ t. record t { token_bring_online = arg }) p
    else if nat_beq opt 401
    then set_reference (λ t. record t { dest_token_description = arg }) p
    else if nat_beq opt 402
    then set_reference (λ t. record t { source_token_description = arg }) p
    else err usage

-- The cases of the `switch` on credentials.
unfoldable pub set_credentials : TransferTypes → ℕ → String → Parsed → Result Exit Parsed
set_credentials types opt arg p =
    if nat_beq opt 500
    then set_opts (λ o. record o { vo_name = arg }) p
    else if nat_beq opt 501
    then set_opts (λ o. record o { user_dn = arg }) p
    else if nat_beq opt 502
    then set_opts (λ o. record o { proxy = arg }) p
    else if nat_beq opt 503
    then set_opts (λ o. record o { oauth_file = arg }) p
    else if nat_beq opt 504
    then set_reference (λ t. record t { source_token_issuer = arg }) p
    else if nat_beq opt 505
    then set_reference (λ t. record t { dest_token_issuer = arg }) p
    else if nat_beq opt 506
    then set_opts (λ o. record o { auth_method = arg }) p
    else if nat_beq opt 507
    then set_opts (λ o. record o { copy_mode = translate_copy_mode types arg }) p
    else if nat_beq opt 508
    then set_opts (λ o. record o { disable_copy_fallback = true }) p
    else if nat_beq opt 509
    then set_opts (λ o. record o { retrieve_se_token = true }) p
    else if nat_beq opt 510
    then set_opts (λ o. record o { cloud_storage_config = arg }) p
    else err usage

-- The cases of the `switch` on services and metadata.
unfoldable pub set_services : ℕ → String → Parsed → Result Exit Parsed
set_services opt arg p =
    if nat_beq opt 600
    then set_opts (λ o. record o { infosys = arg }) p
    else if nat_beq opt 601
    then set_opts (λ o. record o { alias = arg }) p
    else if nat_beq opt 602
    then set_opts (λ o. record o { enable_monitoring = true }) p
    else if nat_beq opt 603
    then with_number (cast_unsigned 32 arg)
        (λ n. record p { opts = record p.opts { ping_interval = n } })
    else if nat_beq opt 700
    then set_reference (λ t. record t { file_metadata = arg }) p
    else if nat_beq opt 701
    then set_reference (λ t. record t { transfer_metadata = metadata_of arg }) p
    else if nat_beq opt 702
    then set_opts (λ o. record o { job_metadata = arg }) p
    else err usage

-- The cases of the `switch` on protocol.
unfoldable pub set_protocol : ℕ → String → Parsed → Result Exit Parsed
set_protocol opt arg p =
    if nat_beq opt 801
    then with_number (cast_int arg) (λ n. record p { opts = record p.opts { optimizer_level = n } })
    else if nat_beq opt 802
    then set_opts (λ o. record o { overwrite = true }) p
    else if nat_beq opt 803
    then with_number (cast_int arg) (λ n. record p { opts = record p.opts { n_streams = n } })
    else if nat_beq opt 804
    then with_number (cast_unsigned 32 arg)
        (λ n. record p { opts = record p.opts { tcp_buffersize = n } })
    else if nat_beq opt 805
    then with_number (cast_unsigned 32 arg) (λ n. record p { opts = record p.opts { timeout = n } })
    else if nat_beq opt 806
    then set_opts (λ o. record o { enable_udt = true }) p
    else if nat_beq opt 807
    then set_opts (λ o. record o { enable_ipv6 = some true }) p
    else if nat_beq opt 808
    then with_number (cast_int arg) (λ n. record p { opts = record p.opts { add_sec_per_mb = n } })
    else if nat_beq opt 809
    then set_opts (λ o. record o { enable_ipv6 = some false }) p
    else if nat_beq opt 810
    then set_opts (λ o. record o { no_delegation = true }) p
    else if nat_beq opt 811
    then set_opts (λ o. record o { no_streaming = true }) p
    else if nat_beq opt 812
    then set_opts (λ o. record o { skip_evict = true }) p
    else if nat_beq opt 820
    then with_number (cast_int arg) (λ n. record p { opts = record p.opts { retry = n } })
    else if nat_beq opt 821
    then with_number (cast_int arg) (λ n. record p { opts = record p.opts { retry_max = n } })
    else err usage

-- The cases of the `switch` on logging.
unfoldable pub set_logging : ℕ → String → Parsed → Result Exit Parsed
set_logging opt arg p =
    if nat_beq opt 1
    then with_number (cast_unsigned 32 arg)
        (λ n. record p { opts = record p.opts { debug_level = n } })
    else if nat_beq opt 2
    then set_opts (λ o. record o { log_to_stderr = true }) p
    else if nat_beq opt 900
    then set_opts (λ o. record o { log_dir = arg }) p
    else if nat_beq opt 901
    then set_opts (λ o. record o { msg_dir = arg }) p
    else err usage

-- The `switch`, by the hundreds of the case.
unfoldable pub handle : TransferTypes → ℕ → String → Parsed → Result Exit Parsed
unfolding set_job set_checks set_credentials set_services set_protocol set_logging
handle types opt arg p =
    if ltb opt 100
    then set_logging opt arg p
    else if ltb opt 300
    then set_job opt arg p
    else if ltb opt 500
    then set_checks opt arg p
    else if ltb opt 600
    then set_credentials types opt arg p
    else if ltb opt 800
    then set_services opt arg p
    else if ltb opt 900
    then set_protocol opt arg p
    else set_logging opt arg p

-- The loop over the options. What is not recognised is the default case.
unfoldable pub handle_events : TransferTypes → List Event → Parsed → Result Exit Parsed
handle_events types [] p = ok p
handle_events types (unrecognized ∷ events) p = err usage
handle_events types (found opt arg ∷ events) p = elim (handle types opt arg p) [
  | err e ↦ err e
  | ok p' ↦ handle_events types events p'
]
