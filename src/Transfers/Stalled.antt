-- ===== src/Transfers/Stalled.antt =====
-- What `markAsStalled` leaves in the list.
use fts.Common.{
  Bool, Each, Each-keep, Each-map, List, Preserves, Preserves-bind, Preserves-skip, [], ap, arith,
  false, if◌then◌else◌, keep, nat_beq_iff, not, ok, ok-bind, preserves_rules, refl, str_beq_iff,
  subst, sym, true, ℕ, ℤ, ◌-ℤ◌, ◌∙◌, ◌∷◌, ◌≡◌, ◌≤◌,
}
use fts.Transfers.Canceler.{
  kill, mark_as_stalled, reap_expired, reap_message, reap_messages, stalled_reason,
}
use fts.Transfers.Local.{Preserves-fail_stalled, Preserves-stalled_reason}
use fts.Transfers.Types.{Host, MessageUpdater, Reason, Service, Signal}
use fts.Transfers.Watch.{
  check_expired_msg, delete_msg, erase_files, expired_messages, is_expired, lock,
}
use fts.Transfers.Watching.{erase_files-keep, is_file_of, is_same_file}

-- A clock that does not go back: the readings are at least the time, which the other calls do not move
-- backwards.
pub record Clock {W : Type 0} (h : Host W) : Type 0 where
  pub time : W → ℕ
  pub now_time : (w : W) → time w ≤ (h.now w).0
  pub now_later : (w : W) → time w ≤ time (h.now w).1
  pub lock_later : (w : W) → time w ≤ time (h.timed_lock w).1

is_expired-later :
    (timeout : ℤ) (t u : ℕ) (i : MessageUpdater)
    → t ≤ u
    → is_expired timeout t i ≡ true
    → is_expired timeout u i ≡ true
unfolding is_expired ◌-ℤ◌
is_expired-later timeout t u i le e = ground arith

is_same_file_refl : (i : MessageUpdater) → is_same_file i i ≡ true
is_same_file_refl i = ground (arith, nat_beq_iff i.file_id i.file_id, str_beq_iff i.job_id i.job_id)

-- What is not the file of a reported message was not expired.
abbrev IsCovered : ℤ → ℕ → List MessageUpdater → MessageUpdater → Type 0
IsCovered timeout t messages i = not (is_file_of messages i) ≡ true → is_expired timeout t i ≡ false

IsCovered-head :
    (timeout : ℤ) (t now : ℕ) (i : MessageUpdater) (rest : List MessageUpdater)
    → t ≤ now
    → IsCovered timeout t (if is_expired timeout now i then i ∷ rest else rest) i
IsCovered-head timeout t now i rest le e =
    ground (arith, is_expired-later timeout t now i le, is_same_file_refl i)

IsCovered-tail :
    (timeout : ℤ) (t : ℕ) (b : Bool) (i : MessageUpdater) (rest : List MessageUpdater)
    (j : MessageUpdater)
    → IsCovered timeout t rest j
    → IsCovered timeout t (if b then i ∷ rest else rest) j
IsCovered-tail timeout t b i rest j c e = ground (arith, c)

module _ {W : Type 0} ⦃h : Host W⦄ where
  expired_messages-IsCovered :
      (k : Clock h) (timeout : ℤ) (t : ℕ) (w : W) (list : List MessageUpdater)
      → t ≤ k.time w
      → Each (IsCovered timeout t (expired_messages timeout w list).0) list
  unfolding expired_messages
  expired_messages-IsCovered k timeout t w [] le = tt
  expired_messages-IsCovered k timeout t w (i ∷ list) le =
      let n = h.now w in
      let rest = (expired_messages timeout n.1 list).0 in
      (
        IsCovered-head timeout t n.0 i rest (omega (arith, le, k.now_time w)),
        Each-map (IsCovered timeout t rest) _ list
            (IsCovered-tail timeout t (is_expired timeout n.0 i) i rest)
            (expired_messages-IsCovered k timeout t n.1 list (omega (arith, le, k.now_later w))),
      )

  -- The list stays as it is while the messages are reaped.
  abbrev Watches : List MessageUpdater → Service W → Type 0
  Watches list s = s.watched ≡ list

  Preserves-kill-Watches :
      (list : List MessageUpdater) (pid : ℤ) (signal : Signal)
      → Preserves (Watches list) (kill pid signal)
  unfolding kill
  Preserves-kill-Watches list pid signal = record { at = λ s p. p }

  Watches-reap_message :
      (list : List MessageUpdater) (reason : Reason) (m : MessageUpdater)
      → Preserves (Watches list) (reap_message reason m)
  unfolding reap_message
  Watches-reap_message list reason m = search (
    preserves_rules,
    Preserves-kill-Watches list,
    Preserves-fail_stalled (Watches list) (λ s w p. p),
  )

  Watches-reap_messages :
      (list : List MessageUpdater) (reason : Reason) (ms : List MessageUpdater)
      → Preserves (Watches list) (reap_messages reason ms)
  unfolding reap_messages
  Watches-reap_messages list reason [] = Preserves-skip (Watches list)
  Watches-reap_messages list reason (m ∷ ms) =
      Preserves-bind (Watches list) (reap_message reason m) _ (Watches-reap_message list reason m)
        (λ _. Watches-reap_messages list reason ms)

  pub check_expired_ok :
      (timeout : ℤ) (s s₁ : Service W) (messages : List MessageUpdater)
      → check_expired_msg timeout s ≡ (ok messages, s₁)
      → (s₁.watched ≡ s.watched)
        × (messages ≡ (expired_messages timeout (h.timed_lock s.world).1 s.watched).0)
  unfolding check_expired_msg lock
  check_expired_ok timeout s s₁ messages e = ground arith

  delete_msg_ok :
      (messages : List MessageUpdater) (s s' : Service W)
      → delete_msg messages s ≡ (ok tt, s')
      → s'.watched ≡ erase_files messages s.watched
  unfolding delete_msg lock
  delete_msg_ok messages s s' e = ground arith

  reap_expired_ok :
      (timeout : ℤ) (messages : List MessageUpdater) (s s' : Service W)
      → reap_expired timeout messages s ≡ (ok tt, s')
      → s'.watched ≡ erase_files messages s.watched
  unfolding reap_expired erase_files
  reap_expired_ok timeout [] s s' e = sym (ap (λ r. r.1.watched) e)
  reap_expired_ok timeout (m ∷ ms) s s' e =
      let (reason, s₀, e₀, r₀) = ok-bind (stalled_reason timeout) _ s s' tt e in
      let (_, s₁, e₁, e₂) =
        ok-bind (reap_messages reason (m ∷ ms)) (λ _. delete_msg (m ∷ ms)) s₀ s' tt r₀ in
      let found = (Preserves-stalled_reason (Watches s.watched) (λ s w p. p) timeout).at s refl in
      let same =
        (Watches-reap_messages s.watched reason (m ∷ ms)).at s₀
          (sym (ap (λ r. r.1.watched) e₀) ∙ found) in
      delete_msg_ok (m ∷ ms) s₁ s' e₂
      ∙ ap (erase_files (m ∷ ms)) (sym (ap (λ r. r.1.watched) e₁) ∙ same)

  -- When `markAsStalled` returns, and the clock does not go back, no transfer is left in the list whose
  -- last message was expired at the start.
  pub mark_as_stalled-clears :
      (k : Clock h) (timeout : ℤ) (s s' : Service W)
      → mark_as_stalled timeout s ≡ (ok tt, s')
      → Each (λ i. is_expired timeout (k.time s.world) i ≡ false) s'.watched
  unfolding mark_as_stalled
  mark_as_stalled-clears k timeout s s' e =
      let (messages, s₁, e₁, e₂) = ok-bind (check_expired_msg timeout) _ s s' tt e in
      let (same, found) = check_expired_ok timeout s s₁ messages e₁ in
      let left =
        reap_expired_ok timeout messages s₁ s' e₂
        ∙ erase_files-keep messages s₁.watched
        ∙ ap (keep (λ i. not (is_file_of messages i))) same in
      let covered =
        expired_messages-IsCovered k timeout (k.time s.world) (h.timed_lock s.world).1 s.watched
          (k.lock_later s.world) in
      let P : MessageUpdater → Type 0 = λ i. is_expired timeout (k.time s.world) i ≡ false in
      subst (Each P) (sym left) (
        Each-keep P _ s.watched (
          subst (λ ms. Each (IsCovered timeout (k.time s.world) ms) s.watched) (sym found) covered))
