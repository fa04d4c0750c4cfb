-- ===== src/UrlCopy/Transfer.antt =====
-- `UrlCopyProcess::runTransfer` (UrlCopyProcess.cpp): one transfer, with the exceptions it throws.
use fts.Common.{
  Action, Bool, List, Option, Result, String, [], eq_ℤ, err, false, if◌then◌else◌, modify, nat_beq,
  neg_part, none, not, ok, pos, pos_part, skip, some, throw, true, ℕ, ◌&&◌, ◌++◌, ◌+◌, ◌==◌, ◌>>=◌,
  ◌>>◌, ◌∷◌, string_key, nat_key,
}
use fts.Uri.Types.{Uri}
use fts.UrlCopy.Errno.{eexist, einval, enoent, etimedout}
use fts.UrlCopy.Timeout.{adjust_timeout_based_on_size}
use fts.UrlCopy.Types.{
  DestFile, Failure, Gfal2, Opts, Params, Report, Thrown, Transfer, gfal2_exception, new_error,
  other_exception, protocol, std_exception, url_copy_error,
}

pub record Context (W : Type 0) : Type 0 where
  pub world : W
  pub transfer : Transfer
  pub params : Params
  pub reports : List Report

-- An action on the context that may throw.
abbrev pub Act : Type 0 → Type 0 → Type 0
Act W A = Action (Context W) Thrown A

-- `throw UrlCopyError(scope, phase, …)` for an exception of a gfal2 call.
unfoldable pub rethrow : String → String → Failure → Thrown
unfolding new_error
rethrow scope phase (gfal2_exception code msg) = url_copy_error (new_error scope phase code msg)
rethrow scope phase (std_exception msg) = url_copy_error (new_error scope phase einval msg)

-- The constants of the extended attribute `user.status`.
unfoldable pub locality : String → DestFile → DestFile
locality status f =
    if status == "ONLINE"
    then record f { file_on_disk = true }
    else if status == "NEARLINE"
    then record f { file_on_tape = true }
    else if status == "ONLINE_AND_NEARLINE"
    then record f { file_on_disk = true; file_on_tape = true }
    else f

unfoldable pub effective_timeout : Opts → Transfer → ℕ
unfolding adjust_timeout_based_on_size
effective_timeout opts t =
    if nat_beq opts.timeout 0
    then adjust_timeout_based_on_size t.file_size opts.add_sec_per_mb
    else opts.timeout

unfoldable pub copy_outcome : Bool → Option Failure → Result Thrown (Unit {0})
unfolding new_error
copy_outcome expired none = ok tt
copy_outcome expired (some (gfal2_exception code msg)) =
    err (url_copy_error (new_error "TRANSFER" "TRANSFER" (if expired then etimedout else code) msg))
copy_outcome expired (some (std_exception msg)) =
    err (url_copy_error (new_error "TRANSFER" "TRANSFER" einval msg))

-- `std::abs` of the error number of gfal2; another exception escapes.
unfoldable pub release_outcome : Transfer → Option Failure → Result Thrown (Unit {0}) × Transfer
release_outcome t none = (ok tt, record t { eviction_retc = pos 0 })
release_outcome t (some (gfal2_exception code msg)) =
    (ok tt, record t { eviction_retc = pos (pos_part code + neg_part code) })
release_outcome t (some (std_exception msg)) = (err (other_exception msg), t)

module _ {W : Type 0} ⦃g : Gfal2 W⦄ where
  -- `gfal2.stat(params, uri, …).st_size`, with its exception as a value.
  unfoldable pub stat : (Transfer → Uri) → Bool → Act W (Result Failure ℕ)
  stat uri is_source c =
      let (r, w) = g.stat c.world c.params (uri c.transfer) is_source in
      (ok r, record c { world = w })

  unfoldable pub create_dest_file_report : Act W (Result Failure DestFile)
  unfolding locality
  create_dest_file_report c =
      let t = c.transfer in
      let (checksum, w₁) = g.get_checksum c.world t.destination t.checksum_algorithm in
      elim checksum [
        | err e ↦ (ok (err e), record c { world = w₁ })
        | ok checksum_value ↦
            let (size, w₂) = g.stat w₁ c.params t.destination false in
            elim size [
              | err e ↦ (ok (err e), record c { world = w₂ })
              | ok file_size ↦
                  let (status, w₃) = g.get_xattr w₂ t.destination "user.status" in
                  elim status [
                    | err e ↦ (ok (err e), record c { world = w₃ })
                    | ok user_status ↦ (
                      ok (
                          ok (
                            locality user_status (record {
                              file_size = file_size;
                              checksum_type =
                                  if t.checksum_algorithm == ""
                                  then "ADLER32"
                                  else t.checksum_algorithm;
                              checksum_value = checksum_value;
                              file_on_disk = false;
                              file_on_tape = false;
                            }))),
                      record c { world = w₃ },
                    )
                  ]
            ]
      ]

  append_to_metadata : Result Failure DestFile → Act W (Unit {0})
  append_to_metadata (err e) c = (ok tt, c)
  append_to_metadata (ok f) c = elim (g.append_dest_file c.transfer.file_metadata f) [
    | err e ↦ (ok tt, c)
    | ok metadata ↦ (ok tt, record c { transfer = record c.transfer { file_metadata = metadata } })
  ]

  -- "Checking integrity of destination tape file": a failure is only logged.
  unfoldable pub report_dest_file : Opts → Act W (Unit {0})
  unfolding create_dest_file_report append_to_metadata
  report_dest_file opts =
      if opts.dst_file_report then (do f ← create_dest_file_report; append_to_metadata f) else skip

  -- The answer to "Checking existence of destination file".
  unfoldable pub existence : Opts → Result Failure ℕ → Act W (Unit {0})
  unfolding new_error
  existence opts (ok size) = do
    report_dest_file opts
    throw (
        url_copy_error (
          new_error "DESTINATION" "TRANSFER_PREPARATION" eexist
            "Destination file exists and overwrite is not enabled"))
  existence opts (err (gfal2_exception code msg)) =
      if eq_ℤ code enoent
      then skip
      else throw (url_copy_error (new_error "DESTINATION" "TRANSFER_PREPARATION" code msg))
  existence opts (err (std_exception msg)) = throw (other_exception msg)

  unfoldable pub source_size : Result Failure ℕ → Act W (Unit {0})
  unfolding rethrow
  source_size (ok size) =
      modify (λ c. record c { transfer = record c.transfer { file_size = size } })
  source_size (err e) = throw (rethrow "SOURCE" "TRANSFER_PREPARATION" e)

  unfoldable pub check_destination : Opts → Act W (Unit {0})
  check_destination opts =
      if opts.overwrite then skip else (do r ← stat (λ t. t.destination) false; existence opts r)

  -- "Copy only transfer!", or the size of the source and the check of the destination.
  unfoldable pub prepare : Opts → Act W (Unit {0})
  prepare opts =
      if opts.strict_copy
      then modify
          (λ c. record c { transfer = record c.transfer { file_size = c.transfer.user_file_size } })
      else do r ← stat (λ t. t.source) true; source_size r; check_destination opts

  -- The protocol parameters, the report of them, and the timer threads.
  unfoldable pub set_protocol : Opts → Act W (Unit {0})
  unfolding effective_timeout
  set_protocol opts c =
      let timeout = effective_timeout opts c.transfer in
      let params = record c.params {
        number_of_streams = opts.n_streams;
        tcp_buffersize = opts.tcp_buffersize;
        timeout = timeout;
      } in
      (
        ok tt,
        record c {
          params = params;
          reports = c.reports ++ protocol c.transfer params ∷ [];
          world = g.start_timers c.world (timeout + 60);
        },
      )

  unfoldable pub copy : Act W (Unit {0})
  unfolding copy_outcome
  copy c =
      let (r, w) = g.copy c.world c.params c.transfer.source c.transfer.destination in
      (copy_outcome (g.timeout_expired w) r, record c { world = w })

  unfoldable pub release_source : Opts → Act W (Unit {0})
  unfolding release_outcome
  release_source opts c =
      if not (c.transfer.token_bring_online == "") && not opts.skip_evict
      then (let (r, w) =
            g.release_file c.world c.params c.transfer.source c.transfer.token_bring_online in
          let (done, t) = release_outcome c.transfer r in
          (done, record c { world = w; transfer = t }))
      else (ok tt, c)

  unfoldable pub compare_size : Result Failure ℕ → Act W (Unit {0})
  unfolding rethrow new_error
  compare_size (err e) c = (err (rethrow "DESTINATION" "TRANSFER_FINALIZATION" e), c)
  compare_size (ok dest_size) c = if nat_beq dest_size c.transfer.file_size then (ok tt, c) else (
    err (
        url_copy_error (
          new_error "DESTINATION" "TRANSFER_FINALIZATION" einval
            "Source and destination file size mismatch")),
    c,
  )

  -- "Validate destination size"
  unfoldable pub validate_size : Opts → Act W (Unit {0})
  validate_size opts =
      if opts.strict_copy then skip else (do r ← stat (λ t. t.destination) false; compare_size r)

  unfoldable pub run_transfer : Opts → Act W (Unit {0})
  run_transfer opts = do
    prepare opts
    set_protocol opts
    copy
    release_source opts
    validate_size opts
