-- ===== src/Scheduling/Runs.antt =====
-- `getFiles` ends.
use fts.Common.{
  Bool-cases, Each, List, Option, arith, false, inl, inr, is_empty, refl, some, subst, sym, true,
  ◌+◌, ◌-ℤ◌, ◌||◌, ◌≡◌, ◌⊎◌,
}
use fts.Scheduling.Ends.{is_stopped, serve-Ends}
use fts.Scheduling.Handler.{is_served, new_handler, size}
use fts.Scheduling.New.{new_handler-IsAdded}
use fts.Scheduling.Serve.{Environment, Serving, get_files, new_serving, serve}
use fts.Scheduling.Slots.{slots_for}
use fts.Transfers.VoShares.{QueueId}

-- The variables of the loop when it starts.
abbrev pub start_of : Environment → List QueueId → Serving
start_of e queues =
    new_serving (e.get_ready_transfers queues) (e.max_url_copy -ℤ e.url_copy_count)
      (slots_for e.get_storage_config queues)

-- The loop, with the fuel of `getFiles`.
abbrev pub loop_of : Environment → List QueueId → Option Serving
loop_of e queues =
    serve e.get_proxy_file e.interrupted (2 + size (new_handler (e.get_ready_transfers queues)))
      (start_of e queues)

-- There is nothing to do, or the loop ends: interrupted, without a free process, or when every file was
-- asked for.
abbrev pub EndsWith : Environment → List QueueId → Serving → Type 0
EndsWith e queues s' =
    ((is_empty queues || is_empty (e.get_ready_transfers queues) ≡ true) × (s' ≡ start_of e queues))
    ⊎ ((loop_of e queues ≡ some s') × (is_stopped s' || is_served s'.handler ≡ true))

-- If no VO is given without files, `getFiles` ends. There was nothing to do, or its loop was interrupted,
-- has no process left, or has asked for every file.
pub get_files_ends :
    (e : Environment) (queues : List QueueId)
    → Each (λ f. is_empty f.1 ≡ false) (e.get_ready_transfers queues)
    → (s' : Serving) × (get_files e queues ≡ some s'.tasks) × EndsWith e queues s'
unfolding get_files
get_files_ends e queues n =
    elim (Bool-cases (is_empty queues || is_empty (e.get_ready_transfers queues))) [
      | inl b ↦ (start_of e queues, rw b refl, inl (b, refl))
      | inr b ↦
          let a = new_handler-IsAdded (λ vo i. 1) (e.get_ready_transfers queues) n in
          let (s', h, stop) =
            serve-Ends e.get_proxy_file e.interrupted _ (start_of e queues) a.ready a.stocked
              (omega arith) in
          (s', rw (b, h) refl, inr (h, stop))
    ]

-- What the loop keeps holds at the end.
pub end_keeps {ℓ} :
    (P : Serving → Type ℓ) (e : Environment) (queues : List QueueId) (s' : Serving)
    → P (start_of e queues)
    → ((s' : Serving) → loop_of e queues ≡ some s' → P s')
    → EndsWith e queues s'
    → P s'
end_keeps P e queues s' p k (inl (b, h)) = subst P (sym h) p
end_keeps P e queues s' p k (inr (h, stop)) = k s' h
