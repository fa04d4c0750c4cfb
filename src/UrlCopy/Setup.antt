-- ===== src/UrlCopy/Setup.antt =====
-- `setupTransferConfig` and `setupTokenConfig` (UrlCopyProcess.cpp). The calls that set a plain option
-- are taken not to fail.
use text.Mathlib.Text.{starts_with}
use fts.Common.{
  Bool, List, Result, String, [], err, if◌then◌else◌, ltb, modify, nat_beq, none, not, ok, skip,
  some, true, ℕ, ◌&&◌, ◌*◌, ◌+◌, ◌/◌, ◌==◌, ◌>>◌, ◌||◌, ◌∷◌, string_key, nat_key,
}
use fts.UrlCopy.Timeout.{adjust_timeout_based_on_size}
use fts.UrlCopy.Transfer.{Act, rethrow}
use fts.UrlCopy.Types.{
  ChecksumMode, Failure, Gfal2, Opts, Params, Transfer, checksum_source, checksum_target,
  gfal2_exception, new_error, other_exception, std_exception, url_copy_error,
}

-- The protocols whose storages issue macaroons.
unfoldable pub is_macaroon_enabled : String → Bool
is_macaroon_enabled scheme = starts_with scheme "davs" || starts_with scheme "https"

-- In minutes: twice the timeout, and ten more.
unfoldable pub macaroon_validity : Opts → Transfer → ℕ
macaroon_validity opts t =
    if not (nat_beq opts.timeout 0)
    then 2 * opts.timeout / 60 + 10
    else if not (nat_beq t.user_file_size 0)
    then 2 * adjust_timeout_based_on_size t.user_file_size opts.add_sec_per_mb / 60 + 10
    else 180

-- The token that a successful retrieval gives replaces the one that was set.
unfoldable pub token_or : String → Result Failure String → String
token_or old (ok token) = token
token_or old (err e) = old

-- `loadTokensFile`: the first two lines, where they are not empty.
unfoldable pub load_lines : List String → Params → Params
load_lines [] p = p
load_lines (s ∷ []) p = record p {
  source_bearer_token = if s == "" then p.source_bearer_token else s;
}
load_lines (s ∷ d ∷ rest) p = record p {
  source_bearer_token = if s == "" then p.source_bearer_token else s;
  dest_bearer_token = if d == "" then p.dest_bearer_token else d;
}

-- The scope of the error for a checksum that cannot be set.
abbrev pub checksum_scope : ChecksumMode → String
checksum_scope checksum_source = "SOURCE"
checksum_scope checksum_target = "DESTINATION"
checksum_scope _ = "TRANSFER"

module _ {W : Type 0} ⦃g : Gfal2 W⦄ where
  unfoldable pub load_tokens_file : String → Act W (Unit {0})
  unfolding load_lines
  load_tokens_file path c = (
    ok tt,
    record c {
      params = load_lines (g.read_lines c.world path) c.params;
      world = g.unlink c.world path;
    },
  )

  unfoldable pub load_cloud_config : Opts → Act W (Unit {0})
  load_cloud_config opts c =
      let (r, w) = g.load_config_file c.world opts.cloud_storage_config in
      (ok tt, record c { world = g.unlink w opts.cloud_storage_config })

  unfoldable pub retrieve_source_token : Opts → Act W (Unit {0})
  unfolding is_macaroon_enabled macaroon_validity token_or
  retrieve_source_token opts c =
      let t = c.transfer in
      if not (t.source_token_issuer == "") || is_macaroon_enabled t.source.protocol
      then (let (r, w) =
            g.token_retrieve c.world t.source t.source_token_issuer (macaroon_validity opts t)
              ("DOWNLOAD" ∷ "LIST" ∷ []) in
          (
            ok tt,
            record c {
              world = w;
              params = record c.params {
                source_bearer_token = token_or c.params.source_bearer_token r;
              };
            },
          ))
      else (ok tt, c)

  unfoldable pub retrieve_dest_token : Opts → Act W (Unit {0})
  unfolding is_macaroon_enabled macaroon_validity token_or
  retrieve_dest_token opts c =
      let t = c.transfer in
      if not (t.dest_token_issuer == "") || is_macaroon_enabled t.destination.protocol
      then (let (r, w) =
            g.token_retrieve c.world t.destination t.dest_token_issuer (macaroon_validity opts t)
              ("MANAGE" ∷ "UPLOAD" ∷ "DELETE" ∷ "LIST" ∷ []) in
          (
            ok tt,
            record c {
              world = w;
              params = record c.params {
                dest_bearer_token = token_or c.params.dest_bearer_token r;
              };
            },
          ))
      else (ok tt, c)

  unfoldable pub setup_token_config : Opts → Act W (Unit {0})
  setup_token_config opts =
      if not (opts.cloud_storage_config == "")
      then load_cloud_config opts
      else if opts.auth_method == "oauth2" && not (opts.oauth_file == "")
      then load_tokens_file opts.oauth_file
      else if not opts.retrieve_se_token
      then skip
      else (do retrieve_source_token opts; retrieve_dest_token opts)

  -- The settings that come before the tokens.
  unfoldable pub set_flags : Opts → Act W (Unit {0})
  set_flags opts = modify λ c. record c {
    params = record c.params {
      strict_copy = opts.strict_copy;
      create_parent_dir = true;
      replace_existing_file = opts.overwrite;
      delegation = not opts.no_delegation;
      streaming = not opts.no_streaming;
      scitag = if ltb 0 c.transfer.scitag then c.transfer.scitag else c.params.scitag;
      transfer_metadata =
          if c.transfer.transfer_metadata == ""
          then c.params.transfer_metadata
          else c.transfer.transfer_metadata;
    };
  }

  unfoldable pub set_spacetokens : Act W (Unit {0})
  set_spacetokens = modify λ c. record c {
    params = record c.params {
      source_spacetoken =
          if c.transfer.source_token_description == ""
          then c.params.source_spacetoken
          else c.transfer.source_token_description;
      dest_spacetoken =
          if c.transfer.dest_token_description == ""
          then c.params.dest_spacetoken
          else c.transfer.dest_token_description;
    };
  }

  unfoldable pub set_checksum : Act W (Unit {0})
  unfolding rethrow new_error
  set_checksum c =
      let t = c.transfer in
      if t.checksum_algorithm == ""
      then (ok tt, c)
      else elim (g.set_checksum c.world t.checksum_mode t.checksum_algorithm t.checksum_value) [
        | none ↦ (
          ok tt,
          record c {
            params = record c.params {
              checksum = some (t.checksum_mode, t.checksum_algorithm, t.checksum_value);
            };
          },
        )
        | some (gfal2_exception code msg) ↦ (
          err (
              url_copy_error
                (new_error (checksum_scope t.checksum_mode) "TRANSFER_PREPARATION" code msg)),
          c,
        )
        | some (std_exception msg) ↦ (err (other_exception msg), c)
      ]

  abbrev set_if : Bool → String → String → W → W
  set_if test key value w = if test then g.set w "HTTP PLUGIN" key value else w

  -- The options of the HTTP plugin and the client information.
  unfoldable pub set_http_options : Opts → Act W (Unit {0})
  set_http_options opts = modify λ c.
      let t = c.transfer in
      let w₁ = set_if (not (opts.copy_mode == "")) "DEFAULT_COPY_MODE" opts.copy_mode c.world in
      let w₂ = set_if opts.disable_copy_fallback "ENABLE_FALLBACK_TPC_COPY" "false" w₁ in
      let w₃ =
        set_if (starts_with t.source.protocol "s3" && starts_with t.destination.protocol "s3")
          "ENABLE_REMOTE_COPY" "false" w₂ in
      let w₄ = set_if (nat_beq opts.debug_level 3) "LOG_SENSITIVE" "true" w₃ in
      let w₅ = g.add_client_info w₄ "job-id" t.job_id in
      let w₆ = g.add_client_number w₅ "file-id" t.file_id in
      record c { world = g.add_client_number w₆ "retry" opts.retry }

  unfoldable pub setup_transfer_config : Opts → Act W (Unit {0})
  setup_transfer_config opts = do
    set_flags opts
    setup_token_config opts
    set_spacetokens
    set_checksum
    set_http_options opts
