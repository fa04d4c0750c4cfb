-- ===== src/UrlCopy/Process.antt =====
-- `UrlCopyProcess::run` and `archiveLogs` (UrlCopyProcess.cpp), where no signal calls `panic`.
use Prim.Native.String.{◌++◌ as ◌++ₛ◌}
use fts.Common.{
  List, Result, String, [], err, false, if◌then◌else◌, ltb, nat_beq, none, ok, some, ◌++◌, ◌∷◌,
}
use fts.UrlCopy.Errno.{ecanceled, einval}
use fts.UrlCopy.Setup.{setup_transfer_config}
use fts.UrlCopy.Transfer.{Context, run_transfer}
use fts.UrlCopy.Types.{
  Gfal2, Opts, Params, Report, Thrown, Transfer, UrlCopyError, completed, new_error,
  other_exception, started, url_copy_error,
}

pub record Process (W : Type 0) : Type 0 where
  pub world : W
  pub todo_transfers : List Transfer
  pub done_transfers : List Transfer
  pub reports : List Report

-- `Gfal2TransferParams params;`
unfoldable pub new_params : Params
new_params = record {
  strict_copy = false;
  create_parent_dir = false;
  replace_existing_file = false;
  delegation = false;
  streaming = false;
  scitag = 0;
  transfer_metadata = "";
  source_bearer_token = "";
  dest_bearer_token = "";
  source_spacetoken = "";
  dest_spacetoken = "";
  checksum = none;
  number_of_streams = 0;
  tcp_buffersize = 0;
  timeout = 0;
}

-- The error that the handlers of `runTransfer` keep in the transfer; success keeps what was there.
unfoldable pub keep_error : Result Thrown (Unit {0}) → Transfer → Transfer
unfolding new_error
keep_error (ok _) t = t
keep_error (err (url_copy_error e)) t = record t { error = some e }
keep_error (err (other_exception msg)) t = record t {
  error = some (new_error "GENERAL_FAILURE" "TRANSFER_SERVICE" einval msg);
}

-- The error of the configuration. An exception of another type would end the process.
unfoldable pub keep_setup_error : Result Thrown (Unit {0}) → Transfer → Transfer
keep_setup_error (err (url_copy_error e)) t = record t { error = some e }
keep_setup_error _ t = t

abbrev with_debug : String → String
with_debug file = ◌++ₛ◌ file ".debug"

unfoldable pub canceled_error : UrlCopyError
unfolding new_error
canceled_error = new_error "TRANSFER" "TRANSFER_PREPARATION" ecanceled "Transfer canceled"

-- "a termination message must be sent for them"
unfoldable pub report_canceled : List Transfer → List Report
report_canceled [] = []
report_canceled (t ∷ ts) = completed (record t { error = some canceled_error }) ∷ report_canceled ts

module _ {W : Type 0} ⦃g : Gfal2 W⦄ where
  unfoldable pub prepare_logging : Opts → Context W → Context W
  prepare_logging opts c =
      let t = c.transfer in
      let log_file = g.generate_log_path c.world opts.log_dir t in
      record c {
        transfer = record t {
          process_start = g.milliseconds c.world;
          log_file = log_file;
          debug_log_file = if nat_beq opts.debug_level 0 then "/dev/null" else with_debug log_file;
        };
      }

  -- A failure leaves the path as it was.
  unfoldable pub archive_log : Opts → Context W → Context W
  archive_log opts c =
      let t = c.transfer in
      let archived = g.generate_archive_log_path c.world opts.log_dir t in
      let (r, w) = g.rename c.world t.log_file archived in
      elim r [
        | none ↦ record c { world = w; transfer = record t { log_file = archived } }
        | some e ↦ record c { world = w }
      ]

  unfoldable pub archive_debug_log : Opts → String → Context W → Context W
  archive_debug_log opts archived c =
      let t = c.transfer in
      let (r, w) = g.rename c.world t.debug_log_file (with_debug archived) in
      if ltb 0 opts.debug_level
      then (elim r [
        | none ↦ record c {
          world = w;
          transfer = record t { debug_log_file = with_debug archived };
        }
        | some e ↦ record c { world = w }
      ])
      else c

  unfoldable pub archive_logs : Opts → Context W → Context W
  unfolding archive_log archive_debug_log
  archive_logs opts c =
      archive_debug_log opts (g.generate_archive_log_path c.world opts.log_dir c.transfer)
        (archive_log opts c)

  -- The body of the loop up to the final notification.
  unfoldable pub process_transfer : Opts → Context W → Context W
  process_transfer opts c₀ =
      let (setup, c₁) = setup_transfer_config opts (prepare_logging opts c₀) in
      let t₁ = keep_setup_error setup c₁.transfer in
      let c₂ = record c₁ { transfer = t₁; reports = c₁.reports ++ started t₁ ∷ [] } in
      let (result, c₃) = run_transfer opts c₂ in
      let c₄ = archive_logs opts (record c₃ { transfer = keep_error result c₃.transfer }) in
      record c₄ { transfer = record c₄.transfer { process_end = g.milliseconds c₄.world } }

  -- The loop, on the transfers that are left to do. The final notification drops the first one.
  unfoldable pub run_loop : Opts → W → List Transfer → List Transfer → List Report → Process W
  unfolding report_canceled
  run_loop opts w [] done reports = record {
    world = w;
    todo_transfers = [];
    done_transfers = done;
    reports = reports;
  }
  run_loop opts w (t ∷ ts) done reports =
      let c =
        process_transfer opts
          (record { world = w; transfer = t; params = new_params; reports = reports }) in
      let rest =
        run_loop opts c.world ts (done ++ c.transfer ∷ [])
          (c.reports ++ completed c.transfer ∷ []) in
      if g.canceled w
      then record {
        world = w;
        todo_transfers = t ∷ ts;
        done_transfers = done;
        reports = reports ++ report_canceled (t ∷ ts);
      }
      else rest

  unfoldable pub run : Opts → W → List Transfer → Process W
  unfolding run_loop
  run opts w transfers = run_loop opts w transfers [] []
