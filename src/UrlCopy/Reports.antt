-- ===== src/UrlCopy/Reports.antt =====
-- Every transfer of the job gets one completion message.
use mathlib.Core.List.{append-nil}
use fts.Common.{
  Bool, List, Result, [], ap, arith, continue, err, false, if◌then◌else◌, map, ok, refl, skip,
  throw, true, ℕ, ◌++◌, ◌>>=◌, ◌∙◌, ◌∷◌, ◌≡◌,
}
use fts.Uri.Types.{Uri}
use fts.UrlCopy.Transfer.{
  Act, Context, check_destination, compare_size, copy, existence, prepare, release_source,
  report_dest_file, run_transfer, set_protocol, source_size, stat, validate_size,
}
use fts.UrlCopy.Types.{Failure, Gfal2, Opts, Report, Thrown, Transfer, completed, protocol, started}

-- The transfers whose completion was reported, in the order of the messages.
abbrev pub completions : List Report → List Transfer
completions [] = []
completions (protocol t p ∷ rs) = completions rs
completions (started t ∷ rs) = completions rs
completions (completed t ∷ rs) = t ∷ completions rs

pub completions-append :
    (rs ss : List Report) → completions (rs ++ ss) ≡ completions rs ++ completions ss
completions-append [] ss = refl
completions-append (protocol t p ∷ rs) ss = completions-append rs ss
completions-append (started t ∷ rs) ss = completions-append rs ss
completions-append (completed t ∷ rs) ss = ap (◌∷◌ t) (completions-append rs ss)

abbrev pub file_ids : List Transfer → List ℕ
file_ids = map (λ t. t.file_id)

-- The transfer is still the same one, and no completion was reported.
pub record Same {W : Type 0} (c c' : Context W) : Type 0 where
  pub same_id : c'.transfer.file_id ≡ c.transfer.file_id
  pub same_completions : completions c'.reports ≡ completions c.reports

module _ {W : Type 0} where
  pub record Keeps {A : Type 0} (m : Act W A) : Type 0 where
    pub at : (c : Context W) → Same c (m c).1

  pub Keeps-bind :
      {A B : Type 0} (m : Act W A) (f : A → Act W B)
      → Keeps m
      → ((a : A) → Keeps (f a))
      → Keeps (m >>= f)
  Keeps-bind {A} m f km kf = record { at = λ c. go (m c) c (km.at c) }
    where
      go :
          (r : Result Thrown A × Context W) (c : Context W)
          → Same c r.1
          → Same c (continue r.0 f r.1).1
      go (ok a, c₁) c s =
          let k = (kf a).at c₁ in
          record {
            same_id = k.same_id ∙ s.same_id;
            same_completions = k.same_completions ∙ s.same_completions;
          }
      go (err e, c₁) c s = s

  pub Keeps-if :
      {A : Type 0} (b : Bool) (m n : Act W A) → Keeps m → Keeps n → Keeps (if b then m else n)
  Keeps-if true m n km kn = km
  Keeps-if false m n km kn = kn

  pub Keeps-skip : Keeps (skip {S = Context W} {E = Thrown})
  Keeps-skip = record { at = λ c. record { same_id = refl; same_completions = refl } }

  Keeps-throw : {A : Type 0} (e : Thrown) → Keeps (throw {S = Context W} {A = A} e)
  Keeps-throw e = record { at = λ c. record { same_id = refl; same_completions = refl } }

module _ {W : Type 0} ⦃g : Gfal2 W⦄ where
  Keeps-stat : (uri : Transfer → Uri) (is_source : Bool) → Keeps {W = W} (stat uri is_source)
  unfolding stat
  Keeps-stat uri is_source = record { at = λ c. ground arith }

  Keeps-source_size : (r : Result Failure ℕ) → Keeps {W = W} (source_size r)
  unfolding source_size
  Keeps-source_size r = record { at = λ c. ground arith }

  Keeps-report_dest_file : (opts : Opts) → Keeps {W = W} (report_dest_file opts)
  unfolding report_dest_file
  Keeps-report_dest_file opts = record { at = λ c. ground arith }

  Keeps-existence : (opts : Opts) (r : Result Failure ℕ) → Keeps {W = W} (existence opts r)
  unfolding existence
  Keeps-existence opts r = record { at = λ c. ground (arith, (Keeps-report_dest_file opts).at c) }

  Keeps-set_protocol : (opts : Opts) → Keeps {W = W} (set_protocol opts)
  unfolding set_protocol
  Keeps-set_protocol opts = record {
    at = λ c. record {
      same_id = refl;
      same_completions = completions-append c.reports _ ∙ append-nil _;
    };
  }

  Keeps-copy : Keeps {W = W} copy
  unfolding copy
  Keeps-copy = record { at = λ c. ground arith }

  Keeps-release_source : (opts : Opts) → Keeps {W = W} (release_source opts)
  unfolding release_source
  Keeps-release_source opts = record { at = λ c. ground arith }

  Keeps-compare_size : (r : Result Failure ℕ) → Keeps {W = W} (compare_size r)
  unfolding compare_size
  Keeps-compare_size r = record { at = λ c. ground arith }

  ruleset keeps_rules = (
    Keeps-bind, Keeps-if, Keeps-skip, Keeps-throw, Keeps-stat, Keeps-source_size, Keeps-existence,
    Keeps-set_protocol, Keeps-copy, Keeps-release_source, Keeps-compare_size,
  )

  Keeps-check_destination : (opts : Opts) → Keeps {W = W} (check_destination opts)
  unfolding check_destination
  Keeps-check_destination opts = search keeps_rules

  Keeps-prepare : (opts : Opts) → Keeps {W = W} (prepare opts)
  unfolding prepare
  Keeps-prepare opts =
      Keeps-if opts.strict_copy _ _
        (record { at = λ c. record { same_id = refl; same_completions = refl } })
        (search (keeps_rules, Keeps-check_destination))

  Keeps-validate_size : (opts : Opts) → Keeps {W = W} (validate_size opts)
  unfolding validate_size
  Keeps-validate_size opts = search keeps_rules

  pub Keeps-run_transfer : (opts : Opts) → Keeps {W = W} (run_transfer opts)
  unfolding run_transfer
  Keeps-run_transfer opts = search (keeps_rules, Keeps-prepare, Keeps-validate_size)
