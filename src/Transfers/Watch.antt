-- ===== src/Transfers/Watch.antt =====
-- ThreadSafeList.cpp: the list of the running transfers with the time of their last message.
use fts.Common.{
  Bool, List, String, [], eq_ℤ, err, if◌then◌else◌, leb, lt_ℤ, ltb, map, modify, nat_beq, ok, pos,
  ℕ, ℤ, ◌&&◌, ◌*ℤ◌, ◌*◌, ◌++◌, ◌-ℤ◌, ◌==◌, ◌>>◌, ◌∷◌, string_key, nat_key,
}
use fts.Transfers.Types.{Act, Host, MessageUpdater}

-- `age > timeout`: the clock in microseconds, the message in milliseconds, the timeout in seconds.
unfoldable pub is_expired : ℤ → ℕ → MessageUpdater → Bool
is_expired timeout now msg = lt_ℤ (timeout *ℤ pos 1000000) (pos now -ℤ pos (msg.timestamp * 1000))

-- The body of the loop of `updateMsg`.
unfoldable pub update_timestamp : ℕ → MessageUpdater → MessageUpdater → MessageUpdater
update_timestamp pid_start_time msg i =
    if eq_ℤ msg.process_id i.process_id
    then (if ltb 0 pid_start_time && leb pid_start_time msg.timestamp
        then record i { timestamp = msg.timestamp }
        else i)
    else i

-- The loop that erases the entries of one file.
unfoldable pub erase_file : String → ℕ → List MessageUpdater → List MessageUpdater
erase_file job_id file_id [] = []
erase_file job_id file_id (i ∷ list) =
    let rest = erase_file job_id file_id list in
    if nat_beq file_id i.file_id && job_id == i.job_id then rest else i ∷ rest

-- The outer loop of `deleteMsg`.
unfoldable pub erase_files : List MessageUpdater → List MessageUpdater → List MessageUpdater
unfolding erase_file
erase_files [] list = list
erase_files (m ∷ messages) list = erase_files messages (erase_file m.job_id m.file_id list)

module _ {W : Type 0} ⦃h : Host W⦄ where
  -- `_mutex.timed_lock`
  unfoldable pub lock : Act W (Unit {0})
  lock s =
      let (locked, w) = h.timed_lock s.world in
      if locked
      then (ok tt, record s { world = w })
      else (err "Mutex timeout expired", record s { world = w })

  unfoldable pub push_back : MessageUpdater → Act W (Unit {0})
  unfolding lock
  push_back msg = lock >> modify (λ s. record s { watched = s.watched ++ msg ∷ [] })

  unfoldable pub clear : Act W (Unit {0})
  unfolding lock
  clear = lock >> modify (λ s. record s { watched = [] })

  -- The clock is read again for each entry.
  unfoldable pub expired_messages : ℤ → W → List MessageUpdater → List MessageUpdater × W
  unfolding is_expired
  expired_messages timeout w [] = ([], w)
  expired_messages timeout w (i ∷ list) =
      let (now, w₁) = h.now w in
      let (rest, w₂) = expired_messages timeout w₁ list in
      (if is_expired timeout now i then i ∷ rest else rest, w₂)

  unfoldable pub check_expired_msg : ℤ → Act W (List MessageUpdater)
  unfolding lock
  check_expired_msg timeout = lock >> λ s.
      let (messages, w) = expired_messages timeout s.world s.watched in
      (ok messages, record s { world = w })

  unfoldable pub update_msg : MessageUpdater → Act W (Unit {0})
  unfolding lock
  update_msg msg = lock >> λ s.
      let (pid_start_time, w) = h.get_pid_startime s.world msg.process_id in
      (ok tt, record s { world = w; watched = map (update_timestamp pid_start_time msg) s.watched })

  unfoldable pub delete_msg : List MessageUpdater → Act W (Unit {0})
  unfolding lock
  delete_msg messages = lock >> modify (λ s. record s { watched = erase_files messages s.watched })

  unfoldable pub remove_finished_tr : String → ℕ → Act W (Unit {0})
  unfolding lock
  remove_finished_tr job_id file_id =
      lock >> modify (λ s. record s { watched = erase_file job_id file_id s.watched })
