-- ===== src/Executor/Claims.antt =====
-- A process is started only for a transfer that this server has claimed.
use fts.Common.{
  Bool, Bool-cases, Option, String, ap, false, if◌then◌else◌, inl, inr, nat_beq, none, pos, refl,
  some, true, ℤ, ◌||◌, ◌∙◌, ◌∷◌, ◌≡◌, ◌⊎◌,
}
use fts.CommandLine.Command.{Command, generate_parameters}
use fts.CommandLine.Types.{TransferFile}
use fts.Executor.Build.{build_command}
use fts.Executor.Run.{
  ProtocolMessage, Surroundings, World, after_claim, claim, is_given_up_link, launched,
  protocol_message, report_on, run_allowed, run_executor,
}
use fts.Executor.Settings.{LinkSettings, ServerSettings}
use fts.Jobs.Files.{update_transfer_status}
use fts.Jobs.Status.{update_job_status}
use fts.Jobs.Types.{active, ready}
use Prim.Native.Nat.{suc}

-- Whether the database lets the server have the transfer.
unfoldable pub is_claimed : Surroundings → TransferFile → World → Bool
unfolding report_on
is_claimed e t w = (update_transfer_status e.session (report_on t (pos 0) ready "") w.db).0

-- Either no process is started, or one, for the command, when the transfer was claimed.
abbrev pub Starts : Surroundings → TransferFile → Option Command → World → World → Type 0
Starts e t o w w' =
    (w'.started_lines ≡ w.started_lines)
    ⊎ ((c : Command) × (o ≡ some c)
        × (is_claimed e t w ≡ true)
        × (w'.started_lines ≡ generate_parameters c ∷ w.started_lines))

abbrev Started : Command → World → World → Type 0
Started c w w' =
    (w'.started_lines ≡ w.started_lines)
    ⊎ (w'.started_lines ≡ generate_parameters c ∷ w.started_lines)

launched-Started :
    (e : Surroundings) (t : TransferFile) (c : Command) (o : Option ℤ) (w : World)
    → Started c w (launched e t c o w)
unfolding launched
launched-Started e t c none w = inl refl
launched-Started e t c (some pid) w = inr refl

after_claim-Started :
    (e : Surroundings) (t : TransferFile) (c : Command) (m : Option ProtocolMessage) (w : World)
    → Started c w (after_claim e t c true m w)
unfolding after_claim
after_claim-Started e t c none w = inl refl
after_claim-Started e t c (some m) w =
    launched-Started e t c (e.fork (generate_parameters c))
      (record w { protocol_messages = m ∷ w.protocol_messages })

after_claim-false :
    (e : Surroundings) (t : TransferFile) (c : Command) (m : Option ProtocolMessage) (w : World)
    → after_claim e t c false m w ≡ w
unfolding after_claim
after_claim-false e t c none w = refl
after_claim-false e t c (some m) w = refl

-- No process is started for a transfer that was not claimed.
claim_lost :
    (e : Surroundings) (t : TransferFile) (c : Command) (w : World)
    → is_claimed e t w ≡ false
    → (claim e t c w).started_lines ≡ w.started_lines
unfolding claim is_claimed
claim_lost e t c w h =
    let r = update_transfer_status e.session (report_on t (pos 0) ready "") w.db in
    let w₁ : World = record w {
      db = update_job_status e.session t.job_id active r.1;
      scheduled = suc w.scheduled;
    } in
    ap (λ b. (after_claim e t c b (protocol_message t c) w₁).started_lines) h
    ∙ ap (λ (w : World). w.started_lines) (after_claim-false e t c (protocol_message t c) w₁)

claim_won :
    (e : Surroundings) (t : TransferFile) (c : Command) (w : World)
    → is_claimed e t w ≡ true
    → Started c w (claim e t c w)
unfolding claim is_claimed
claim_won e t c w h = rw h (after_claim-Started e t c (protocol_message t c) _)

claim-Starts :
    (e : Surroundings) (t : TransferFile) (c : Command) (w : World)
    → Starts e t (some c) w (claim e t c w)
claim-Starts e t c w = elim (Bool-cases (is_claimed e t w)) [
  | inl h ↦ elim (claim_won e t c w h) [ inl a ↦ inl a | inr b ↦ inr (c, refl, h, b) ]
  | inr h ↦ inl (claim_lost e t c w h)
]

Starts-if :
    (e : Surroundings) (t : TransferFile) (o : Option Command) (w x y : World) (b : Bool)
    → Starts e t o w x
    → Starts e t o w y
    → Starts e t o w (if b then x else y)
Starts-if e t o w x y true h k = h
Starts-if e t o w x y false h k = k

run_allowed-Starts :
    (e : Surroundings) (t : TransferFile) (o : Option Command) (w : World)
    → Starts e t o w (run_allowed e t o w)
unfolding run_allowed
run_allowed-Starts e t none w = inl refl
run_allowed-Starts e t (some c) w =
    Starts-if e t (some c) w w (claim e t c w) e.interrupted_later (inl refl) (claim-Starts e t c w)

-- A run starts no process, or one: then it has claimed the transfer in the database, and the process
-- gets the command that was built for the transfer.
pub run_executor-Starts :
    (read_auth : String → Option String) (issuer : String → String → Option String)
    (e : Surroundings) (l : LinkSettings) (s : ServerSettings) (t : TransferFile) (w : World)
    → Starts e t (build_command read_auth issuer l s t) w (run_executor read_auth issuer e l s t w)
unfolding run_executor
run_executor-Starts read_auth issuer e l s t w =
    let o = build_command read_auth issuer l s t in
    Starts-if e t o w _ _ (nat_beq t.file_id 0 || e.interrupted_first) (inl refl) (
      Starts-if e t o w _ _ (is_given_up_link (t.source_se, t.dest_se) w.not_scheduled) (inl refl)
        (Starts-if e t o w _ _ l.is_tr_allowed (run_allowed-Starts e t o w) (inl refl)))
