-- ===== src/Transfers/Watching.antt =====
-- What the list of running transfers guarantees: deletion by file, and messages that keep a transfer.
use fts.Common.{
  Bool, Each, List, [], any, ap, arith, eq_ℤ_iff, false, keep, map, nat_beq, not, ok, pos, refl,
  sym, true, ℕ, ◌&&◌, ◌*ℤ◌, ◌*◌, ◌+◌, ◌-ℤ◌, ◌<◌, ◌==◌, ◌||◌, ◌∙◌, ◌∷◌, ◌≡◌, ◌≤◌, string_key,
  nat_key,
}
use fts.Transfers.Types.{Host, MessageUpdater, Service}
use fts.Transfers.Watch.{erase_file, erase_files, is_expired, lock, update_msg, update_timestamp}

-- The comparison of `deleteMsg`.
abbrev pub is_same_file : MessageUpdater → MessageUpdater → Bool
is_same_file m i = nat_beq m.file_id i.file_id && m.job_id == i.job_id

abbrev pub is_file_of : List MessageUpdater → MessageUpdater → Bool
is_file_of messages i = any (λ m. is_same_file m i) messages

erase_file-keep :
    (m : MessageUpdater) (list : List MessageUpdater)
    → erase_file m.job_id m.file_id list ≡ keep (λ i. not (is_same_file m i)) list
unfolding erase_file
erase_file-keep m [] = refl
erase_file-keep m (i ∷ list) = ground (arith, erase_file-keep m list)

keep-keep :
    {A : Type 0} (p q : A → Bool) (xs : List A)
    → keep (λ x. not (q x)) (keep (λ x. not (p x)) xs) ≡ keep (λ x. not (p x || q x)) xs
keep-keep p q [] = refl
keep-keep p q (x ∷ xs) = ground (arith, keep-keep p q xs)

keep-true : {A : Type 0} (xs : List A) → keep (λ x. true) xs ≡ xs
keep-true [] = refl
keep-true (x ∷ xs) = ap (◌∷◌ x) (keep-true xs)

-- Deleting the messages one after the other keeps the entries that are the file of none of them.
pub erase_files-keep :
    (messages list : List MessageUpdater)
    → erase_files messages list ≡ keep (λ i. not (is_file_of messages i)) list
unfolding erase_files
erase_files-keep [] list = sym (keep-true list)
erase_files-keep (m ∷ messages) list =
    erase_files-keep messages _
    ∙ ap (keep (λ i. not (is_file_of messages i))) (erase_file-keep m list)
    ∙ keep-keep (is_same_file m) (is_file_of messages) list

refreshed :
    (timeout now start : ℕ) (msg : MessageUpdater)
    → 0 < start
    → start ≤ msg.timestamp
    → now ≤ msg.timestamp * 1000 + timeout * 1000000
    → (list : List MessageUpdater)
    → Each
        (λ i. i.process_id ≡ msg.process_id → is_expired (pos timeout) now i ≡ false)
        (map (update_timestamp start msg) list)
unfolding update_timestamp is_expired ◌*ℤ◌ ◌-ℤ◌
refreshed timeout now start msg lo hi early [] = tt
refreshed timeout now start msg lo hi early (i ∷ list) = (
  λ e. ground (arith, eq_ℤ_iff msg.process_id i.process_id),
  refreshed timeout now start msg lo hi early list,
)

module _ {W : Type 0} ⦃h : Host W⦄ where
  -- After a message of a process that was started before it, no entry of that process is expired until
  -- the timeout has passed since the message.
  pub update_msg-not_expired :
      (timeout now : ℕ) (msg : MessageUpdater) (s s' : Service W)
      → update_msg msg s ≡ (ok tt, s')
      → 0 < (h.get_pid_startime (h.timed_lock s.world).1 msg.process_id).0
      → (h.get_pid_startime (h.timed_lock s.world).1 msg.process_id).0 ≤ msg.timestamp
      → now ≤ msg.timestamp * 1000 + timeout * 1000000
      → Each
          (λ i. i.process_id ≡ msg.process_id → is_expired (pos timeout) now i ≡ false)
          s'.watched
  unfolding update_msg lock
  update_msg-not_expired timeout now msg s s' e lo hi early =
      let kept =
        refreshed timeout now (h.get_pid_startime (h.timed_lock s.world).1 msg.process_id).0 msg lo
          hi early s.watched in
      ground (arith, kept)
