-- ===== src/Scheduling/Given.antt =====
-- Whatever holds of all the files that are given holds of all the transfers that are started.
use fts.Common.{
  Bool-cases, Dict, Each, Each-append, Each-find, Each-put, List, Option, String, [], ap, arith,
  false, find, inl, inr, is_empty, none, refl, some, subst, suc, sym, ◌++◌, ◌∷◌, ◌≡◌, string_key,
  nat_key,
}
use fts.CommandLine.Types.{TransferFile}
use fts.Optimizer.Types.{pair_key}
use fts.Scheduling.Constructor.{with_vo}
use fts.Scheduling.Handler.{
  Handler, add_file, add_files, add_vo, add_vos, contains_index, file_of_index, files_at, get,
  get_file, get_index, new_handler, no_files, note_storages, pop_file, push_file, size,
  without_front,
}
use fts.Scheduling.Keeps.{serve_keeps}
use fts.Scheduling.New.{new_handler-IsAdded}
use fts.Scheduling.Ready.{IsReady}
use fts.Scheduling.Runs.{end_keeps, get_files_ends, start_of}
use fts.Scheduling.Serve.{Environment, Serving, Task, get_files, serve_got, serve_vo, proxy_key}
use fts.Scheduling.Started.{Serves, passed_over, serve_got-Serves, started}
use fts.Scheduling.Steps.{serve_got_handler, serve_vo-IsWithin}
use fts.Scheduling.Stock.{IsStocked, store_links_files}
use fts.Scheduling.Turns.{Takes, get_index-Takes, no_entry, takes, turned}
use fts.Scheduling.Types.{FileIndex, index_of, index_key}
use fts.Transfers.VoShares.{QueueId}

module _ {ℓ} (P : TransferFile → Type ℓ) where
  -- All the files of the handler, and all the transfers that were started.
  abbrev pub Files : Dict FileIndex (List TransferFile) → Type ℓ
  Files = Each (λ e. Each P e.1)

  at : (i : FileIndex) (h : Handler) → Files h.file_index_to_files → Each P (files_at i h)
  at i h f = by_entry (find i h.file_index_to_files) refl
    where
      by_entry :
          (o : Option (List TransferFile))
          → find i h.file_index_to_files ≡ o
          → Each P (files_at i h)
      by_entry none e = rw e tt
      by_entry (some l) e = rw e (Each-find (λ e. Each P e.1) i l h.file_index_to_files e f)

  push_file_files :
      (t : TransferFile) (h : Handler)
      → P t
      → Files h.file_index_to_files
      → Files (push_file t h).file_index_to_files
  push_file_files t h p f =
      Each-put (λ e. Each P e.1) (index_of t) (files_at (index_of t) h ++ t ∷ [])
        h.file_index_to_files
        (Each-append P (files_at (index_of t) h) (t ∷ []) (at (index_of t) h f) (p, tt)) f

  add_file_files :
      (vo : String) (t : TransferFile) (s : List FileIndex × Handler)
      → P t
      → Files s.1.file_index_to_files
      → Files (add_file vo t s).1.file_index_to_files
  unfolding add_file
  add_file_files vo t (seen, h) p f = elim (Bool-cases (contains_index (index_of t) seen)) [
    | inl e ↦ rw e (push_file_files t (note_storages t h) p f)
    | inr e ↦ rw e (push_file_files t (note_storages t h) p f)
  ]

  add_files_files :
      (vo : String) (ts : List TransferFile) (s : List FileIndex × Handler)
      → Each P ts
      → Files s.1.file_index_to_files
      → Files (add_files vo ts s).1.file_index_to_files
  unfolding add_files
  add_files_files vo [] s p f = f
  add_files_files vo (t ∷ ts) s p f =
      add_files_files vo ts (add_file vo t s) p.1 (add_file_files vo t s p.0 f)

  add_vos_files :
      (files : Dict String (List TransferFile)) (h : Handler)
      → Each (λ e. Each P e.1) files
      → Files h.file_index_to_files
      → Files (add_vos files h).file_index_to_files
  unfolding add_vos add_vo
  add_vos_files [] h p f = f
  add_vos_files ((vo, ts) ∷ files) h p f =
      add_vos_files files (add_vo vo ts h) p.1 (add_files_files vo ts ([], with_vo vo h) p.0 f)

  taken_files :
      (vo : String) (h : Handler) (x : Option FileIndex × Handler)
      → Takes vo h x
      → x.1.file_index_to_files ≡ h.file_index_to_files
  taken_files vo h x (no_entry e) = refl
  taken_files vo h x (takes p i rest m hm hp) =
      store_links_files vo (without_front p rest m) (turned vo p m h)

  -- The file that is got, and the files that are left.
  abbrev Got : Option TransferFile × Handler → Type ℓ
  Got (none, h) = Files h.file_index_to_files
  Got (some t, h) = P t × Files h.file_index_to_files

  popped_files :
      (i : FileIndex) (l : List TransferFile) (h : Handler)
      → Each P l
      → Files h.file_index_to_files
      → Got (pop_file i l h)
  unfolding pop_file
  popped_files i [] h p f = f
  popped_files i (t ∷ ts) h p f = (p.0, Each-put (λ e. Each P e.1) i ts h.file_index_to_files p.1 f)

  Got-files :
      (x : Option FileIndex × Handler) → Files x.1.file_index_to_files → Got (file_of_index x)
  unfolding file_of_index get_file
  Got-files (none, h) f = f
  Got-files (some i, h) f = popped_files i (files_at i h) h (at i h f) f

  get-Got : (vo : String) (h : Handler) → IsReady h → Files h.file_index_to_files → Got (get vo h)
  unfolding get
  get-Got vo h r f =
      Got-files (get_index vo h) (subst Files (sym (taken_files vo h _ (get_index-Takes vo h r))) f)

  abbrev Tasks : List Task → Type ℓ
  Tasks = Each (λ x. P x.transfer)

  Serves_tasks :
      (t : TransferFile) (s s' : Serving) → P t → Tasks s.tasks → Serves t s s' → Tasks s'.tasks
  Serves_tasks t s s' p k (passed_over a b c) = subst Tasks (sym a) k
  Serves_tasks t s s' p k (started x e d f a b c) =
      subst Tasks (sym a)
        (Each-append (λ x. P x.transfer) s.tasks (x ∷ []) k (subst P (sym e) p, tt))

  record IsGiven (s : Serving) : Type ℓ where
    ready : IsReady s.handler
    stocked : IsStocked s.handler
    files : Files s.handler.file_index_to_files
    tasks : Tasks s.tasks

  module _ (get_proxy_file : String → String → String) where
    Got-given :
        (x : Option TransferFile × Handler) (s : Serving)
        → Got x
        → Tasks s.tasks
        → Files (serve_got get_proxy_file x s).handler.file_index_to_files
          × Tasks (serve_got get_proxy_file x s).tasks
    unfolding serve_got
    Got-given (none, h) s g k = (g, k)
    Got-given (some t, h) s g k = (
      subst Files
          (sym (
            ap (λ (h : Handler). h.file_index_to_files)
              (serve_got_handler get_proxy_file (some t, h) s)))
          g.1,
      Serves_tasks t (record s { handler = h }) _ g.0 k (serve_got-Serves get_proxy_file t h s),
    )

    serve_vo-IsGiven :
        (vo : String) (s : Serving) → IsGiven s → IsGiven (serve_vo get_proxy_file vo s)
    unfolding serve_vo
    serve_vo-IsGiven vo s c =
        let g =
          Got-given (get vo s.handler) (record s { checks = suc s.checks })
            (get-Got vo s.handler c.ready c.files) c.tasks in
        let w = serve_vo-IsWithin get_proxy_file s.handler.vos (size s.handler) vo s (record {
          ready = c.ready;
          stocked = c.stocked;
          same_vos = refl;
          within = omega arith;
        }) in
        record { ready = w.ready; stocked = w.stocked; files = g.0; tasks = g.1 }

  -- Whatever holds of all the files that the database gives holds of all the transfers of the tasks.
  pub get_files-given :
      (e : Environment) (queues : List QueueId)
      → Each (λ f. is_empty f.1 ≡ false) (e.get_ready_transfers queues)
      → Each (λ f. Each P f.1) (e.get_ready_transfers queues)
      → (l : List Task) × (get_files e queues ≡ some l) × Each (λ x. P x.transfer) l
  unfolding new_handler
  get_files-given e queues n p =
      let a = new_handler-IsAdded (λ vo i. 1) (e.get_ready_transfers queues) n in
      let (s', h, why) = get_files_ends e queues n in
      let start : IsGiven (start_of e queues) = record {
        ready = a.ready;
        stocked = a.stocked;
        files = add_vos_files (e.get_ready_transfers queues) no_files p tt;
        tasks = tt;
      } in
      let c =
        end_keeps IsGiven e queues s' start
          (λ s' h.
            serve_keeps e.get_proxy_file IsGiven
              (λ s c. record {
                ready = c.ready;
                stocked = c.stocked;
                files = c.files;
                tasks = c.tasks;
              })
              (λ vo s free c. serve_vo-IsGiven e.get_proxy_file vo s c) e.interrupted _
              (start_of e queues) s' start h)
          why in
      (s'.tasks, h, c.tasks)
