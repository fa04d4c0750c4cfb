-- ===== src/Transfers/Local.antt =====
-- Conditions on the server's own state, which calls on the host and the database keep.
use fts.Common.{Preserves, Result, String, arith, modify, preserves_rules, subst, sym, ℤ, ◌≡◌}
use fts.Transfers.Canceler.{fail_stalled, send_state, set_failed, stalled_reason}
use fts.Transfers.Types.{Host, MessageUpdater, Reason, Service, call}
use fts.Transfers.Watch.{lock}

module _ {W : Type 0} ⦃h : Host W⦄ where
  lock_world : (s : Service W) → (lock s).1 ≡ record s { world = (h.timed_lock s.world).1 }
  unfolding lock
  lock_world s = ground arith

  module _ {κ} (P : Service W → Type κ) where
    -- A condition that does not depend on the state of the world.
    abbrev pub IsLocal : Type κ
    IsLocal = (s : Service W) (w : W) → P s → P (record s { world = w })

    pub Preserves-call :
        {A : Type 0} → IsLocal → (f : W → Result String A × W) → Preserves P (call f)
    unfolding call
    Preserves-call l f = record { at = λ s p. l s _ p }

    pub Preserves-fail_stalled :
        IsLocal → (reason : Reason) (m : MessageUpdater) → Preserves P (fail_stalled reason m)
    unfolding fail_stalled set_failed send_state
    Preserves-fail_stalled l reason m = search (preserves_rules, Preserves-call l)

    pub Preserves-stalled_reason : IsLocal → (timeout : ℤ) → Preserves P (stalled_reason timeout)
    unfolding stalled_reason
    Preserves-stalled_reason l timeout = search (preserves_rules, Preserves-call l)

    pub Preserves-lock : IsLocal → Preserves P lock
    Preserves-lock l = record { at = λ s p. subst P (sym (lock_world s)) (l s _ p) }

    pub Preserves-modify :
        (f : Service W → Service W)
        → ((s : Service W) → P s → P (f s))
        → Preserves P (modify {E = String} f)
    Preserves-modify f pf = record { at = pf }
