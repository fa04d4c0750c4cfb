-- ===== src/CommandLine/Command.antt =====
-- UrlCopyCmd.cpp: the flags and the options of one command.
use Prim.Native.String.{String}
use Prim.Native.Char.{code}
use fts.Common.{
  Bool, Dict, List, Option, [], concat, false, if◌then◌else◌, lt_ℤ, nat_beq, none, not, pos,
  show_int, show_nat, some, true, ℕ, ℤ, ◌++◌, ◌==◌, ◌||◌, ◌∷◌, string_key, nat_key,
}
use fts.CommandLine.Types.{
  CopyMode, JobType, ProtocolParameters, TransferFile, Tribool, any_mode, multi_hop,
  multiple_replica, pull, push, regular, session_reuse, streaming,
}
use fts.Optimizer.Run.{lt_string}

-- The options are a map that is sorted by the key.
pub record Command : Type 0 where
  pub options : Dict String String
  pub flags : List String
  pub is_ipv6_explicit : Bool

unfoldable pub new_command : Command
new_command = record { options = []; flags = []; is_ipv6_explicit = false }

-- `boost::replace_all_copy` for a pattern of one character.
unfoldable pub replace_char : ℕ → String → String → String
replace_char c by String.[] = String.[]
replace_char c by (String.◌∷◌ d s) =
    let rest = replace_char c by s in
    if nat_beq (code d) c then concat by rest else String.◌∷◌ d rest

unfoldable pub prepare_metadata_string : String → String
unfolding replace_char
prepare_metadata_string text = replace_char b'"' "\\\"" (replace_char b' ' "?" text)

-- `options.erase(key)`
unfoldable pub erase : String → Dict String String → Dict String String
erase key [] = []
erase key ((k, v) ∷ m) = let rest = erase key m in if k == key then rest else (k, v) ∷ rest

-- `options[key] = value`
unfoldable pub insert_option : String → String → Dict String String → Dict String String
insert_option key value [] = (key, value) ∷ []
insert_option key value ((k, v) ∷ m) =
    let rest = insert_option key value m in
    if key == k
    then (k, value) ∷ m
    else if lt_string key k
    then (key, value) ∷ (k, v) ∷ m
    else (k, v) ∷ rest

unfoldable pub has_flag : String → List String → Bool
has_flag key [] = false
has_flag key (f ∷ fs) = f == key || has_flag key fs

-- The first flag of that name is erased.
unfoldable pub erase_flag : String → List String → List String
erase_flag key [] = []
erase_flag key (f ∷ fs) = let rest = erase_flag key fs in if f == key then fs else f ∷ rest

unfoldable pub set_flag : String → Bool → Command → Command
unfolding erase has_flag erase_flag
set_flag key set c = record c {
  options = erase key c.options;
  flags =
      if set
      then (if has_flag key c.flags then c.flags else c.flags ++ key ∷ [])
      else erase_flag key c.flags;
}

-- An empty value is skipped, which leaves an older value of the option.
unfoldable pub set_option : String → String → Command → Command
unfolding erase_flag insert_option
set_option key value c = record c {
  flags = erase_flag key c.flags;
  options = if value == "" then c.options else insert_option key value c.options;
}

unfoldable pub set_int : String → ℤ → Command → Command
set_int key value c = set_option key (show_int value) c

-- `cmd << " --" << flag` and `cmd << " --" << key << " " << value`
unfoldable pub flags_text : List String → String → String
flags_text [] rest = rest
flags_text (f ∷ fs) rest = concat " --" (concat f (flags_text fs rest))

unfoldable pub options_text : Dict String String → String
options_text [] = ""
options_text ((k, v) ∷ m) = concat " --" (concat k (concat " " (concat v (options_text m))))

unfoldable pub generate_parameters : Command → String
unfolding flags_text options_text
generate_parameters c = flags_text c.flags (options_text c.options)

unfoldable pub set_monitoring : Bool → String → Command → Command
set_monitoring set msg_dir c = set_flag "monitoring" set (set_option "msgDir" msg_dir c)

abbrev pub is_true : Tribool → Bool
is_true (some true) = true
is_true _ = false

abbrev pub is_determinate : Tribool → Bool
is_determinate none = false
is_determinate (some b) = true

unfoldable pub set_udt : Tribool → Command → Command
set_udt set c = set_flag "udt" (is_true set) c

unfoldable pub set_ipv6 : Tribool → Command → Command
set_ipv6 none c =
    set_flag "ipv4" false (set_flag "ipv6" false (record c { is_ipv6_explicit = false }))
set_ipv6 (some value) c =
    set_flag "ipv4" (not value) (set_flag "ipv6" value (record c { is_ipv6_explicit = true }))

unfoldable pub set_skip_evict : Tribool → Command → Command
set_skip_evict set c = set_flag "skip-evict" (is_true set) c

unfoldable pub set_copy_mode : CopyMode → Command → Command
set_copy_mode any_mode c = set_option "copy-mode" "pull" c
set_copy_mode pull c = set_option "copy-mode" "pull" (set_flag "disable-fallback" true c)
set_copy_mode push c = set_option "copy-mode" "push" (set_flag "disable-fallback" true c)
set_copy_mode streaming c = set_option "copy-mode" "streamed" c

unfoldable pub set_job_type : JobType → Command → Command
set_job_type session_reuse c = set_flag "reuse" true c
set_job_type multiple_replica c = set_flag "job-m-replica" true c
set_job_type multi_hop c = set_flag "job-multihop" true c
set_job_type regular c = c

abbrev pub set_if : Bool → (Command → Command) → Command → Command
set_if b f c = if b then f c else c

-- The issuers in the metadata of a file, through the JSON library: `issuer` is `none` where it throws,
-- which ends the loop.
unfoldable pub set_issuers : (String → Option String) → List String → Command → Command
set_issuers issuer [] c = c
set_issuers issuer (issuer_type ∷ types) c = elim (issuer issuer_type) [
  | none ↦ c
  | some value ↦
      let c' = if value == "" then c else set_option issuer_type value c in
      set_issuers issuer types c'
]

-- What is set for one transfer. On multiple jobs it is passed by a file.
unfoldable pub set_single : TransferFile → Command → Command
set_single t c =
    let c₁ = set_option "file-id" (show_nat t.file_id) c in
    let c₂ = set_option "source" t.source_surl c₁ in
    let c₃ = set_option "destination" t.dest_surl c₂ in
    let c₄ = set_option "checksum" t.checksum c₃ in
    let c₅ = set_if (lt_ℤ (pos 0) t.user_filesize) (set_int "user-filesize" t.user_filesize) c₄ in
    let c₆ = set_if (lt_ℤ (pos 0) t.scitag) (set_int "scitag" t.scitag) c₅ in
    let c₇ = set_option "token-bringonline" t.bring_online_token c₆ in
    let c₈ = set_option "file-metadata" (prepare_metadata_string t.file_metadata) c₇ in
    let c₉ = set_option "transfer-metadata" (prepare_metadata_string t.transfer_metadata) c₈ in
    set_if (not (t.activity == "")) (set_option "activity" t.activity) c₉

module _ (issuer : String → String → Option String) where
  unfoldable pub set_from_transfer : TransferFile → Bool → Bool → String → Command → Command
  unfolding set_job_type set_issuers set_single
  set_from_transfer t is_multiple publish_user_dn msg_dir c =
      let c₁ = set_option "job-metadata" (prepare_metadata_string t.job_metadata) c in
      let c₂ = set_option "vo" t.vo_name (set_job_type t.job_type c₁) in
      let c₃ = set_flag "overwrite" (t.overwrite_flag == "Y") (set_option "job-id" t.job_id c₂) in
      let c₄ =
        set_if (not (t.checksum_mode == "")) (set_option "checksum-mode" t.checksum_mode) c₃ in
      let c₅ =
        set_if (lt_ℤ (pos 0) t.archive_timeout)
          (λ c.
            set_flag "dst-file-report" (not (t.dst_file_report == ""))
              (set_flag "archiving" true c))
          c₄ in
      let c₆ = set_option "dest-token-desc" t.destination_space_token c₅ in
      let c₇ = set_option "source-token-desc" t.source_space_token c₆ in
      let c₈ =
        set_if (not (t.file_metadata == ""))
          (set_issuers (issuer t.file_metadata) ("source-issuer" ∷ "dest-issuer" ∷ [])) c₇ in
      let c₉ =
        set_if publish_user_dn (set_option "user-dn" (prepare_metadata_string t.user_dn)) c₈ in
      let c' = set_flag "last-hop" t.last_hop (set_flag "last-replica" t.last_replica c₉) in
      if is_multiple
      then set_option "bulk-file" (concat msg_dir (concat "/" t.job_id)) c'
      else set_single t c'

unfoldable pub set_from_protocol : ProtocolParameters → Command → Command
unfolding set_ipv6 set_udt
set_from_protocol p c =
    let c₁ = set_if (lt_ℤ (pos 0) p.nostreams) (set_int "nstreams" p.nostreams) c in
    let c₂ = set_if (lt_ℤ (pos 0) p.timeout) (set_int "timeout" p.timeout) c₁ in
    let c₃ = set_if (lt_ℤ (pos 0) p.buffersize) (set_int "tcp-buffersize" p.buffersize) c₂ in
    let c₄ = set_if (is_determinate p.ipv6) (set_ipv6 p.ipv6) c₃ in
    let c₅ = set_if (is_determinate p.udt) (set_udt p.udt) c₄ in
    set_flag "strict-copy" p.strict_copy c₅
