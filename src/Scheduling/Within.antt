-- ===== src/Scheduling/Within.antt =====
-- The transfers of a run stay within the limits of the storages and of the processes.
use fts.Common.{
  Bool, Bool-cases, Dict, Each, List, Option, String, [], ap, arith, false, find, find-put, get_or,
  if◌then◌else◌, inl, inr, is_empty, le_ℤ, length, none, pos, pos_part, refl, some, str_beq_iff,
  subst, sym, true, ℕ, ℤ, ◌+◌, ◌-ℤ◌, ◌-◌, ◌==◌, ◌∙◌, ◌∷◌, ◌≡◌, ◌≤◌, string_key, nat_key, -ℤ_parts,
}
use fts.CommandLine.Types.{TransferFile}
use fts.Scheduling.Budget.{left_for_slots}
use fts.Scheduling.Keeps.{serve_keeps}
use fts.Scheduling.Limits.{Side, active_on, file_end, from_storage, into_storage, left_on, limit_on}
use fts.Scheduling.New.{new_handler-IsAdded}
use fts.Scheduling.Ready.{IsReady}
use fts.Scheduling.Runs.{end_keeps, get_files_ends, start_of}
use fts.Scheduling.Serve.{Environment, Serving, Task, get_files, left_for, serve, proxy_key}
use fts.Scheduling.Slots.{is_some, slots_for, take_slots}
use fts.Scheduling.Started.{
  Serves, Visits, file, no_file, passed_over, serve_vo-Visits, started, tally, tally-append,
  tally_one,
}
use fts.Scheduling.Stock.{IsStocked}
use fts.Scheduling.Types.{index_key}
use fts.Transfers.VoShares.{QueueId}

-- Whether the transfer has the storage at this end.
abbrev pub is_on : Side → String → TransferFile → Bool
is_on side se t = file_end side t == se

all_transfers : TransferFile → Bool
all_transfers t = true

-- What the loop has left for a storage and for processes, with what it has started.
record IsSpent (side : Side) (d : String) (n m : ℕ) (s : Serving) : Type 0 where
  ready : IsReady s.handler
  stocked : IsStocked s.handler
  storage : pos_part (left_for d (left_on side s.slots)) + tally (is_on side d) s.tasks ≡ n
  processes : pos_part s.available + tally all_transfers s.tasks ≡ m

one_less : (z : ℤ) → le_ℤ z (pos 0) ≡ false → pos_part (z -ℤ pos 1) + 1 ≡ pos_part z
one_less z h = ground (arith, -ℤ_parts z (pos 1))

find_positive :
    (k : String) (m : Dict String ℤ)
    → le_ℤ (left_for k m) (pos 0) ≡ false
    → is_some (find k m) ≡ true
find_positive k m h = by_entry (find k m) h
  where
    by_entry : (o : Option ℤ) → le_ℤ (get_or (pos 0) o) (pos 0) ≡ false → is_some o ≡ true
    by_entry none h = absurd (ground (arith, h))
    by_entry (some z) h = refl

-- A slot less of the storage, and the others as before.
slot_taken :
    (k d : String) (m : Dict String ℤ)
    → le_ℤ (left_for k m) (pos 0) ≡ false
    → pos_part (left_for d (take_slots k 1 m)) + (if k == d then 1 else 0) ≡ pos_part (left_for d m)
slot_taken k d m h = rw (find-put k d (left_for k m -ℤ pos 1) m) (elim (Bool-cases (k == d)) [
  | inl e ↦
      rw e (one_less (left_for k m) h ∙ ap (λ d. pos_part (left_for d m)) ((str_beq_iff k d).0 e))
  | inr e ↦ rw e (omega arith)
])

module _ (side : Side) (t : TransferFile) (s s' : Serving) where
  positive_end :
      le_ℤ (left_for t.dest_se s.slots.left_for_destination) (pos 0) ≡ false
      → le_ℤ (left_for t.source_se s.slots.left_for_source) (pos 0) ≡ false
      → (side : Side) → le_ℤ (left_for (file_end side t) (left_on side s.slots)) (pos 0) ≡ false
  positive_end a b into_storage = a
  positive_end a b from_storage = b

  left_after :
      s'.slots ≡ record {
        left_for_destination = take_slots t.dest_se 1 s.slots.left_for_destination;
        left_for_source = take_slots t.source_se 1 s.slots.left_for_source;
      }
      → (side : Side)
      → left_on side s'.slots ≡ take_slots (file_end side t) 1 (left_on side s.slots)
  left_after e into_storage = ap (λ s. s.left_for_destination) e
  left_after e from_storage = ap (λ s. s.left_for_source) e

  Serves_storage :
      (d : String)
      → Serves t s s'
      → pos_part (left_for d (left_on side s'.slots)) + tally (is_on side d) s'.tasks
        ≡ pos_part (left_for d (left_on side s.slots)) + tally (is_on side d) s.tasks
  Serves_storage d (passed_over a b c) = rw (a, b) refl
  Serves_storage d (started x e f g a b c) =
      let k = slot_taken (file_end side t) d (left_on side s.slots) (positive_end f g side) in
      rw (left_after b side, a)
        (omega (
          arith,
          k,
          tally-append (is_on side d) s.tasks (x ∷ []),
          tally_one (is_on side d) x,
          ap {B = ℕ} (λ t. if is_on side d t then 1 else 0) e,
        ))

  Serves_processes :
      le_ℤ s.available (pos 0) ≡ false
      → Serves t s s'
      → pos_part s'.available + tally all_transfers s'.tasks
        ≡ pos_part s.available + tally all_transfers s.tasks
  unfolding all_transfers
  Serves_processes free (passed_over a b c) = rw (a, c) refl
  Serves_processes free (started x e f g a b c) =
      rw (c, a)
        (omega (
          arith,
          one_less s.available free,
          tally-append all_transfers s.tasks (x ∷ []),
          tally_one all_transfers x,
        ))

Visits-IsSpent :
    (side : Side) (d : String) (n m : ℕ) (vo : String) (s s' : Serving)
    → le_ℤ s.available (pos 0) ≡ false
    → IsSpent side d n m s
    → Visits vo s s'
    → IsSpent side d n m s'
Visits-IsSpent side d n m vo s s' free c (no_file h a b k) = record {
  ready = subst IsReady (sym h) c.ready;
  stocked = subst IsStocked (sym h) c.stocked;
  storage = rw (a, b) (c.storage);
  processes = rw (a, k) (c.processes);
}
Visits-IsSpent side d n m vo s s' free c (file t r k a v) = record {
  ready = r;
  stocked = k;
  storage = Serves_storage side t s s' d v ∙ c.storage;
  processes = Serves_processes side t s s' free v ∙ c.processes;
}

module _ (get_proxy_file : String → String → String) (interrupted : ℕ → Bool) where
  serve-IsSpent :
      (side : Side) (d : String) (n m fuel : ℕ) (s s' : Serving)
      → IsSpent side d n m s
      → serve get_proxy_file interrupted fuel s ≡ some s'
      → IsSpent side d n m s'
  serve-IsSpent side d n m =
      serve_keeps get_proxy_file (IsSpent side d n m)
        (λ s c. record {
          ready = c.ready;
          stocked = c.stocked;
          storage = c.storage;
          processes = c.processes;
        })
        (λ vo s free c.
          Visits-IsSpent side d n m vo s _ free c
            (serve_vo-Visits get_proxy_file vo s c.ready c.stocked))
        interrupted

tally_all : (l : List Task) → tally all_transfers l ≡ length l
unfolding tally all_transfers
tally_all [] = refl
tally_all (x ∷ l) = omega (arith, tally_all l)

-- If no VO is given without files, `getFiles` ends. The transfers that it starts to or from a storage are at
-- most the limit of the storage, or 60 if none is set, less the active transfers of the queues; and it
-- starts at most as many transfers as processes are free.
pub get_files_within :
    (e : Environment) (queues : List QueueId) (side : Side) (d : String)
    → Each (λ f. is_empty f.1 ≡ false) (e.get_ready_transfers queues)
    → (tasks : List Task) × (get_files e queues ≡ some tasks)
      × (tally (is_on side d) tasks
          ≤ pos_part (limit_on side (e.get_storage_config d)) - active_on side d queues)
      × (length tasks ≤ pos_part (e.max_url_copy -ℤ e.url_copy_count))
unfolding tally
get_files_within e queues side d n =
    let a = new_handler-IsAdded (λ vo i. 1) (e.get_ready_transfers queues) n in
    let (s', h, why) = get_files_ends e queues n in
    let p = pos_part (left_for d (left_on side (slots_for e.get_storage_config queues))) in
    let q = pos_part (e.max_url_copy -ℤ e.url_copy_count) in
    let start : IsSpent side d p q (start_of e queues) = record {
      ready = a.ready;
      stocked = a.stocked;
      storage = omega arith;
      processes = omega arith;
    } in
    let c =
      end_keeps (IsSpent side d p q) e queues s' start
        (λ s'.
          serve-IsSpent e.get_proxy_file e.interrupted side d p q _ (start_of e queues) s' start)
        why in
    (
      s'.tasks,
      h,
      omega (arith, c.storage, left_for_slots e.get_storage_config side d queues),
      omega (arith, c.processes, tally_all s'.tasks),
    )
