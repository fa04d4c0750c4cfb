-- ===== src/UrlCopy/Completion.antt =====
-- The loop of `run` reports the completion of each transfer once, in order.
use mathlib.Core.List.{append-nil, append_assoc, map-append}
use fts.Common.{
  Bool-cases, List, Result, String, [], ap, arith, inl, inr, refl, sym, ◌++◌, ◌∙◌, ◌∷◌, ◌≡◌,
}
use fts.UrlCopy.Process.{
  archive_logs, keep_error, keep_setup_error, new_params, prepare_logging, process_transfer,
  report_canceled, run, run_loop,
}
use fts.UrlCopy.Reports.{
  Keeps, Keeps-bind, Keeps-if, Keeps-run_transfer, Keeps-skip, Same, completions,
  completions-append, file_ids,
}
use fts.UrlCopy.Setup.{
  load_cloud_config, load_tokens_file, retrieve_dest_token, retrieve_source_token, set_checksum,
  set_flags, set_http_options, set_spacetokens, setup_token_config, setup_transfer_config,
}
use fts.UrlCopy.Transfer.{Context, run_transfer}
use fts.UrlCopy.Types.{Gfal2, Opts, Report, Thrown, Transfer, completed, started}

keep_error_id : (r : Result Thrown (Unit {0})) (t : Transfer) → (keep_error r t).file_id ≡ t.file_id
unfolding keep_error
keep_error_id r t = ground arith

keep_setup_error_id :
    (r : Result Thrown (Unit {0})) (t : Transfer) → (keep_setup_error r t).file_id ≡ t.file_id
unfolding keep_setup_error
keep_setup_error_id r t = ground arith

completions-report_canceled :
    (ts : List Transfer) → file_ids (completions (report_canceled ts)) ≡ file_ids ts
unfolding report_canceled
completions-report_canceled [] = refl
completions-report_canceled (t ∷ ts) = ap (◌∷◌ t.file_id) (completions-report_canceled ts)

file_ids-completions :
    (rs ss : List Report)
    → file_ids (completions (rs ++ ss)) ≡ file_ids (completions rs) ++ file_ids (completions ss)
file_ids-completions rs ss =
    ap file_ids (completions-append rs ss) ∙ map-append _ (completions rs) (completions ss)

canceled_completions :
    (rs : List Report) (ts : List Transfer)
    → file_ids (completions (rs ++ report_canceled ts)) ≡ file_ids (completions rs) ++ file_ids ts
canceled_completions rs ts =
    file_ids-completions rs (report_canceled ts)
    ∙ ap (λ l. file_ids (completions rs) ++ l) (completions-report_canceled ts)

abbrev initial_context : {W : Type 0} → W → Transfer → List Report → Context W
initial_context w t reports = record {
  world = w;
  transfer = t;
  params = new_params;
  reports = reports;
}

next_completion :
    {W : Type 0} (c c' : Context W) (ts : List Transfer)
    → Same c c'
    → file_ids (completions (c'.reports ++ completed c'.transfer ∷ [])) ++ file_ids ts
      ≡ file_ids (completions c.reports) ++ (c.transfer.file_id ∷ file_ids ts)
next_completion c c' ts s =
    ap (λ l. l ++ file_ids ts) (file_ids-completions c'.reports (completed c'.transfer ∷ []))
    ∙ append_assoc (file_ids (completions c'.reports)) (c'.transfer.file_id ∷ []) (file_ids ts)
    ∙ rw (s.same_completions, s.same_id) refl

module _ {W : Type 0} ⦃g : Gfal2 W⦄ where
  Keeps-load_tokens_file : (path : String) → Keeps {W = W} (load_tokens_file path)
  unfolding load_tokens_file
  Keeps-load_tokens_file path = record { at = λ c. ground arith }

  Keeps-load_cloud_config : (opts : Opts) → Keeps {W = W} (load_cloud_config opts)
  unfolding load_cloud_config
  Keeps-load_cloud_config opts = record { at = λ c. ground arith }

  Keeps-retrieve_source_token : (opts : Opts) → Keeps {W = W} (retrieve_source_token opts)
  unfolding retrieve_source_token
  Keeps-retrieve_source_token opts = record { at = λ c. ground arith }

  Keeps-retrieve_dest_token : (opts : Opts) → Keeps {W = W} (retrieve_dest_token opts)
  unfolding retrieve_dest_token
  Keeps-retrieve_dest_token opts = record { at = λ c. ground arith }

  ruleset token_rules = (
    Keeps-bind, Keeps-if, Keeps-skip, Keeps-load_tokens_file, Keeps-load_cloud_config,
    Keeps-retrieve_source_token, Keeps-retrieve_dest_token,
  )

  Keeps-setup_token_config : (opts : Opts) → Keeps {W = W} (setup_token_config opts)
  unfolding setup_token_config
  Keeps-setup_token_config opts = search token_rules

  Keeps-set_flags : (opts : Opts) → Keeps {W = W} (set_flags opts)
  unfolding set_flags
  Keeps-set_flags opts = record { at = λ c. record { same_id = refl; same_completions = refl } }

  Keeps-set_spacetokens : Keeps {W = W} set_spacetokens
  unfolding set_spacetokens
  Keeps-set_spacetokens = record { at = λ c. record { same_id = refl; same_completions = refl } }

  Keeps-set_checksum : Keeps {W = W} set_checksum
  unfolding set_checksum
  Keeps-set_checksum = record { at = λ c. ground arith }

  Keeps-set_http_options : (opts : Opts) → Keeps {W = W} (set_http_options opts)
  unfolding set_http_options
  Keeps-set_http_options opts = record {
    at = λ c. record { same_id = refl; same_completions = refl };
  }

  Keeps-setup : (opts : Opts) → Keeps {W = W} (setup_transfer_config opts)
  unfolding setup_transfer_config
  Keeps-setup opts = search (
    Keeps-bind, Keeps-set_flags, Keeps-setup_token_config, Keeps-set_spacetokens,
    Keeps-set_checksum, Keeps-set_http_options,
  )

  Same-prepare_logging : (opts : Opts) (c : Context W) → Same c (prepare_logging opts c)
  unfolding prepare_logging
  Same-prepare_logging opts c = record { same_id = refl; same_completions = refl }

  Same-archive_logs : (opts : Opts) (c : Context W) → Same c (archive_logs opts c)
  unfolding archive_logs
  Same-archive_logs opts c = ground arith

  Same-process_transfer : (opts : Opts) (c : Context W) → Same c (process_transfer opts c)
  unfolding process_transfer
  Same-process_transfer opts c =
      let c₀ = prepare_logging opts c in
      let configured = setup_transfer_config opts c₀ in
      let c₁ = configured.1 in
      let t₁ = keep_setup_error configured.0 c₁.transfer in
      let c₂ = record c₁ { transfer = t₁; reports = c₁.reports ++ started t₁ ∷ [] } in
      let finished = run_transfer opts c₂ in
      let c₃ = finished.1 in
      let c₄ = record c₃ { transfer = keep_error finished.0 c₃.transfer } in
      let logged = Same-prepare_logging opts c in
      let set_up = (Keeps-setup opts).at c₀ in
      let ran = (Keeps-run_transfer opts).at c₂ in
      let archived = Same-archive_logs opts c₄ in
      record {
        same_id =
            archived.same_id
            ∙ keep_error_id finished.0 c₃.transfer
            ∙ ran.same_id
            ∙ keep_setup_error_id configured.0 c₁.transfer
            ∙ set_up.same_id
            ∙ logged.same_id;
        same_completions =
            archived.same_completions
            ∙ ran.same_completions
            ∙ completions-append c₁.reports (started t₁ ∷ [])
            ∙ append-nil _
            ∙ set_up.same_completions
            ∙ logged.same_completions;
      }

  run_loop-completions :
      (opts : Opts) (w : W) (ts done : List Transfer) (reports : List Report)
      → file_ids (completions (run_loop opts w ts done reports).reports)
        ≡ file_ids (completions reports) ++ file_ids ts
  unfolding run_loop
  run_loop-completions opts w [] done reports = sym (append-nil _)
  run_loop-completions opts w (t ∷ ts) done reports = elim (Bool-cases (g.canceled w)) [
    | inl e ↦ rw (e, run_loop) (canceled_completions reports (t ∷ ts))
    | inr e ↦
        rw (e, run_loop)
          (let c₀ = initial_context w t reports in
            let c = process_transfer opts c₀ in
            run_loop-completions opts c.world ts (done ++ c.transfer ∷ [])
              (c.reports ++ completed c.transfer ∷ [])
            ∙ next_completion c₀ c ts (Same-process_transfer opts c₀))
  ]

  -- However the transfers end, and whenever the process is canceled, the completion of each transfer
  -- of the job is reported once, and in the order of the job.
  pub run-completions :
      (opts : Opts) (w : W) (transfers : List Transfer)
      → file_ids (completions (run opts w transfers).reports) ≡ file_ids transfers
  unfolding run
  run-completions opts w transfers = run_loop-completions opts w transfers [] []
