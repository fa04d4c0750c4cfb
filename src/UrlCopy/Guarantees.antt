-- ===== src/UrlCopy/Guarantees.antt =====
-- What `runTransfer` guarantees of the files and of its errors.
use fts.Common.{String, arith, eq_ℤ_iff, err, false, ok, ok-bind, refl, some, true, ℕ, ℤ, ◌≡◌}
use fts.UrlCopy.Errno.{eexist, etimedout}
use fts.UrlCopy.Heuristics.{
  fatal_for_category, find_substring, msg_imply_do_not_retry, msg_imply_retry, retry_transfer,
}
use fts.UrlCopy.Redaction.{find_question, sanitize}
use fts.UrlCopy.Transfer.{
  Context, check_destination, compare_size, copy, existence, prepare, release_source,
  report_dest_file, run_transfer, set_protocol, source_size, stat, validate_size,
}
use fts.UrlCopy.Types.{
  Gfal2, Opts, Params, UrlCopyError, gfal2_exception, is_recoverable, new_error, url_copy_error,
}

-- The error for a destination that exists.
abbrev pub exists_error : UrlCopyError
exists_error =
    new_error "DESTINATION" "TRANSFER_PREPARATION" eexist
      "Destination file exists and overwrite is not enabled"

-- It is not retried.
exists_error_final : is_recoverable exists_error ≡ false
unfolding is_recoverable new_error retry_transfer find_substring sanitize find_question
    msg_imply_retry msg_imply_do_not_retry fatal_for_category
exists_error_final = refl

timeout-is_recoverable :
    (scope msg : String) (code : ℤ) → code ≡ etimedout → retry_transfer code scope msg ≡ true
unfolding retry_transfer
timeout-is_recoverable scope msg code h = ground (arith, eq_ℤ_iff code etimedout)

module _ {W : Type 0} ⦃g : Gfal2 W⦄ where
  validate_size_ok :
      (opts : Opts) (c c' : Context W)
      → opts.strict_copy ≡ false
      → validate_size opts c ≡ (ok tt, c')
      → (g.stat c.world c.params c.transfer.destination false
          ≡ (ok c'.transfer.file_size, c'.world))
        × (c.transfer ≡ c'.transfer)
  unfolding validate_size stat compare_size
  validate_size_ok opts c c' strict h = ground arith

  -- The two fields of the transfer by which the copy is checked.
  record SameFile (c c' : Context W) : Type 0 where
    same_size : c'.transfer.file_size ≡ c.transfer.file_size
    same_destination : c'.transfer.destination ≡ c.transfer.destination

  set_protocol_ok :
      (opts : Opts) (c c' : Context W) → set_protocol opts c ≡ (ok tt, c') → SameFile c c'
  unfolding set_protocol
  set_protocol_ok opts c c' h = ground arith

  copy_ok : (c c' : Context W) → copy c ≡ (ok tt, c') → SameFile c c'
  unfolding copy
  copy_ok c c' h = ground arith

  release_source_ok :
      (opts : Opts) (c c' : Context W) → release_source opts c ≡ (ok tt, c') → SameFile c c'
  unfolding release_source
  release_source_ok opts c c' h = ground arith

  report_dest_file_ok :
      (opts : Opts) (c : Context W) → report_dest_file opts c ≡ (ok tt, (report_dest_file opts c).1)
  unfolding report_dest_file
  report_dest_file_ok opts c = ground arith

  -- The size that the checks work with is that of the source.
  prepare_ok :
      (opts : Opts) (c c' : Context W)
      → opts.strict_copy ≡ false
      → prepare opts c ≡ (ok tt, c')
      → ((g.stat c.world c.params c.transfer.source true).0 ≡ ok c'.transfer.file_size)
        × (c'.transfer.destination ≡ c.transfer.destination)
  unfolding prepare stat source_size check_destination existence
  prepare_ok opts c c' strict h = ground arith

  -- A transfer that ends without an exception, and is not "copy only", has seen in its last call of
  -- gfal2 that the destination has the size that the source had at the start.
  pub run_transfer_validates :
      (opts : Opts) (c c' : Context W)
      → opts.strict_copy ≡ false
      → run_transfer opts c ≡ (ok tt, c')
      → (size : ℕ) × (w : W) × (params : Params) × ((g.stat c.world c.params c.transfer.source
            true).0
          ≡ ok size)
        × (g.stat w params c.transfer.destination false ≡ (ok size, c'.world))
  unfolding run_transfer
  run_transfer_validates opts c c' strict h =
      let (_, c₁, e₁, h₁) = ok-bind (prepare opts) _ c c' tt h in
      let (_, c₂, e₂, h₂) = ok-bind (set_protocol opts) _ c₁ c' tt h₁ in
      let (_, c₃, e₃, h₃) = ok-bind copy _ c₂ c' tt h₂ in
      let (_, c₄, e₄, h₄) = ok-bind (release_source opts) _ c₃ c' tt h₃ in
      let validated = validate_size_ok opts c₄ c' strict h₄ in
      let prepared = prepare_ok opts c c₁ strict e₁ in
      let s₂ = set_protocol_ok opts c₁ c₂ e₂ in
      let s₃ = copy_ok c₂ c₃ e₃ in
      let s₄ = release_source_ok opts c₃ c₄ e₄ in
      (
        c'.transfer.file_size,
        c₄.world,
        c₄.params,
        ground (arith, validated, prepared, s₂, s₃, s₄),
        ground (arith, validated, prepared, s₂, s₃, s₄),
      )

  -- If the destination exists and may not be overwritten, the transfer ends with EEXIST, in the state
  -- that the optional report on the destination leaves: nothing was copied. The
  -- error is not retried.
  pub run_transfer_exists :
      (opts : Opts) (c : Context W) (size found : ℕ) (w₁ w₂ : W)
      → opts.strict_copy ≡ false
      → opts.overwrite ≡ false
      → g.stat c.world c.params c.transfer.source true ≡ (ok size, w₁)
      → g.stat w₁ c.params c.transfer.destination false ≡ (ok found, w₂)
      → (run_transfer opts c ≡ (
        err (url_copy_error exists_error),
        (report_dest_file opts
            (record c { world = w₂; transfer = record c.transfer { file_size = size } })).1,
      ))
        × (is_recoverable exists_error ≡ false)
  unfolding run_transfer prepare stat source_size check_destination existence
  run_transfer_exists opts c size found w₁ w₂ strict keep_old h₁ h₂ = (
    ground (
      arith,
      report_dest_file_ok opts
          (record c { world = w₂; transfer = record c.transfer { file_size = size } }),
    ),
    exists_error_final,
  )

  -- A copy that gfal2 breaks off after the timeout is given the error ETIMEDOUT, which is retried.
  pub copy_timeout :
      (c c' : Context W) (e : UrlCopyError) (code : ℤ) (msg : String)
      → (g.copy c.world c.params c.transfer.source c.transfer.destination).0
        ≡ some (gfal2_exception code msg)
      → copy c ≡ (err (url_copy_error e), c')
      → g.timeout_expired c'.world ≡ true
      → (e.code ≡ etimedout) × (is_recoverable e ≡ true)
  unfolding copy is_recoverable
  copy_timeout c c' e code msg failed h expired =
      (ground arith, timeout-is_recoverable e.scope e.msg e.code (ground arith))
