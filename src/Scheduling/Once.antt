-- ===== src/Scheduling/Once.antt =====
-- A run starts at most one of the replicas of a file for each VO.
use fts.Common.{
  Bool, Dict, Each, List, String, [], ap, arith, false, if◌then◌else◌, is_empty, refl, some, subst,
  sym, weigh, ℕ, ◌+◌, ◌==◌, ◌∙◌, ◌∷◌, ◌≡◌, ◌≤◌, string_key, nat_key,
}
use fts.CommandLine.Types.{TransferFile}
use fts.Scheduling.Amounts.{amount, sum_of}
use fts.Scheduling.Handed.{fresh_once, has_index}
use fts.Scheduling.Handler.{contains_index}
use fts.Scheduling.Keeps.{serve_keeps}
use fts.Scheduling.New.{fresh_indexes, new_handler-IsAdded}
use fts.Scheduling.Ready.{IsReady}
use fts.Scheduling.Runs.{end_keeps, get_files_ends, start_of}
use fts.Scheduling.Serve.{Environment, Serving, Task, get_files, serve, proxy_key}
use fts.Scheduling.Started.{
  Serves, Visits, file, no_file, passed_over, serve_vo-Visits, started, tally, tally-append,
  tally_one,
}
use fts.Scheduling.Stock.{IsStocked, at_index}
use fts.Scheduling.Types.{FileIndex, index_of, index_key}
use fts.Transfers.VoShares.{QueueId}

-- Whether the transfer is of the job and the index.
abbrev pub is_at : FileIndex → TransferFile → Bool
is_at i t = index_of t == i

-- The VOs with a file of the index.
unfoldable pub vos_with : FileIndex → Dict String (List TransferFile) → ℕ
vos_with i files = weigh (λ vo ts. if has_index i ts then 1 else 0) files

record IsCounted (i : FileIndex) (n : ℕ) (s : Serving) : Type 0 where
  ready : IsReady s.handler
  stocked : IsStocked s.handler
  counted : tally (is_at i) s.tasks + amount (at_index i) s.handler ≤ n

Serves_tally :
    (p : TransferFile → Bool) (t : TransferFile) (s s' : Serving)
    → Serves t s s'
    → tally p s'.tasks ≤ tally p s.tasks + (if p t then 1 else 0)
Serves_tally p t s s' (passed_over a b c) = rw a (omega arith)
Serves_tally p t s s' (started x e d f a b c) =
    rw a (omega (arith, tally-append p s.tasks (x ∷ []), one))
  where
    one : tally p (x ∷ []) ≡ (if p t then 1 else 0)
    one = tally_one p x ∙ ap (λ t. if p t then 1 else 0) e

Visits-IsCounted :
    (i : FileIndex) (n : ℕ) (vo : String) (s s' : Serving)
    → IsCounted i n s
    → Visits vo s s'
    → IsCounted i n s'
Visits-IsCounted i n vo s s' c (no_file h a b d) = record {
  ready = subst IsReady (sym h) c.ready;
  stocked = subst IsStocked (sym h) c.stocked;
  counted = rw (h, a) (c.counted);
}
Visits-IsCounted i n vo s s' c (file t r k a v) = record {
  ready = r;
  stocked = k;
  counted = let b = a (at_index i) in omega (arith, b, c.counted, Serves_tally (is_at i) t s s' v);
}

-- The indexes of the files of a VO have each index at most once.
index_weight :
    (i : FileIndex) (files : Dict String (List TransferFile))
    → weigh (λ vo ts. sum_of (at_index i vo) (fresh_indexes [] ts)) files ≡ vos_with i files
unfolding vos_with weigh contains_index
index_weight i [] = refl
index_weight i ((vo, ts) ∷ files) = omega (arith, fresh_once vo i [] ts, index_weight i files)

module _ (get_proxy_file : String → String → String) (interrupted : ℕ → Bool) where
  serve-IsCounted :
      (i : FileIndex) (n fuel : ℕ) (s s' : Serving)
      → IsCounted i n s
      → serve get_proxy_file interrupted fuel s ≡ some s'
      → IsCounted i n s'
  serve-IsCounted i n =
      serve_keeps get_proxy_file (IsCounted i n)
        (λ s c. record { ready = c.ready; stocked = c.stocked; counted = c.counted })
        (λ vo s free c.
          Visits-IsCounted i n vo s _ c (serve_vo-Visits get_proxy_file vo s c.ready c.stocked))
        interrupted

-- If no VO is given without files, `getFiles` ends, and of the transfers of one job with one index, which
-- are the replicas of a file, it starts at most one for each VO that has such transfers.
pub get_files_once :
    (e : Environment) (queues : List QueueId) (i : FileIndex)
    → Each (λ f. is_empty f.1 ≡ false) (e.get_ready_transfers queues)
    → (tasks : List Task) × (get_files e queues ≡ some tasks)
      × (tally (is_at i) tasks ≤ vos_with i (e.get_ready_transfers queues))
unfolding tally
get_files_once e queues i n =
    let a = new_handler-IsAdded (at_index i) (e.get_ready_transfers queues) n in
    let (s', h, why) = get_files_ends e queues n in
    let k = vos_with i (e.get_ready_transfers queues) in
    let start : IsCounted i k (start_of e queues) = record {
      ready = a.ready;
      stocked = a.stocked;
      counted = omega (arith, a.added, index_weight i (e.get_ready_transfers queues));
    } in
    let c =
      end_keeps (IsCounted i k) e queues s' start
        (λ s'. serve-IsCounted e.get_proxy_file e.interrupted i k _ (start_of e queues) s' start)
        why in
    (s'.tasks, h, omega (arith, c.counted))
