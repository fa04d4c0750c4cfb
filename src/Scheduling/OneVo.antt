-- ===== src/Scheduling/OneVo.antt =====
-- In a round, the transfers that are started on a link are those of one VO.
use fts.Common.{
  Bool-cases, Double, Each, Each-map, List, Option, String, [], ap, false, inl, inr, is_empty, le_ℤ,
  pos, refl, some, subst, sym, true, ◌-ℤ◌, ◌∙◌, ◌∷◌, ◌≡◌, ◌≢◌, ◌⊎◌,
}
use fts.CommandLine.Types.{TransferFile}
use fts.Optimizer.PairOrder.{lt_pair_irrefl}
use fts.Optimizer.Run.{lt_pair}
use fts.Optimizer.Types.{Pair}
use fts.Scheduling.Given.{get_files-given}
use fts.Scheduling.Handler.{link_of_file}
use fts.Scheduling.Serve.{Environment, Task}
use fts.Scheduling.Service.{Round, execute_urlcopy, nothing_done, schedule, with_tasks}
use fts.Transfers.OnePerLink.{HasOnePerLink, apply_vo_shares-HasOnePerLink, link_of}
use fts.Transfers.VoShares.{Generator, QueueId, apply_vo_shares}

-- The transfer is on the link of the queue, and of its VO.
abbrev pub IsOf : TransferFile → QueueId → Type 0
IsOf t q = (link_of_file t ≡ link_of q) × (t.vo_name ≡ q.vo_name)

abbrev pub IsOfOne : List QueueId → TransferFile → Type 0
IsOfOne [] t = ⊥
IsOfOne (q ∷ qs) t = IsOf t q ⊎ IsOfOne qs t

-- The transfers are on different links or of one VO.
abbrev pub ShareNoLink : TransferFile → TransferFile → Type 0
ShareNoLink t u = (link_of_file t ≢ link_of_file u) ⊎ (t.vo_name ≡ u.vo_name)

abbrev pub HasOneVoPerLink : List Task → Type 0
HasOneVoPerLink tasks = Each (λ x. Each (λ y. ShareNoLink x.transfer y.transfer) tasks) tasks

-- A queue of a later link has no transfer of an earlier one.
later_queue :
    (p : Pair) (qs : List QueueId) (t : TransferFile)
    → Each (λ r. lt_pair p (link_of r) ≡ true) qs
    → IsOfOne qs t
    → lt_pair p (link_of_file t) ≡ true
later_queue p [] t h o = absurd o
later_queue p (q ∷ qs) t h (inl o) = rw (o.0) (h.0)
later_queue p (q ∷ qs) t h (inr o) = later_queue p qs t h.1 o

apart :
    (t u : TransferFile)
    → lt_pair (link_of_file t) (link_of_file u) ≡ true
    → link_of_file t ≢ link_of_file u
apart t u h e =
    let k = lt_pair_irrefl (link_of_file u) in
    absurd (cc (h, k, ap (λ p. lt_pair p (link_of_file u)) e))

same_vo_on_link :
    (qs : List QueueId) (t u : TransferFile)
    → HasOnePerLink qs
    → IsOfOne qs t
    → IsOfOne qs u
    → ShareNoLink t u
same_vo_on_link [] t u h o p = absurd o
same_vo_on_link (q ∷ qs) t u h (inl o) (inl p) = inr (o.1 ∙ sym p.1)
same_vo_on_link (q ∷ qs) t u h (inl o) (inr p) = inl (
    apart t u (
      subst (λ l. lt_pair l (link_of_file u) ≡ true) (sym o.0)
        (later_queue (link_of q) qs u h.0 p)))
same_vo_on_link (q ∷ qs) t u h (inr o) (inl p) = inl (λ e.
    apart u t
      (subst (λ l. lt_pair l (link_of_file t) ≡ true) (sym p.0)
        (later_queue (link_of q) qs t h.0 o))
      (sym e))
same_vo_on_link (q ∷ qs) t u h (inr o) (inr p) = same_vo_on_link qs t u h.1 o p

all_pairs :
    (qs : List QueueId) (tasks : List Task)
    → HasOnePerLink qs
    → Each (λ x. IsOfOne qs x.transfer) tasks
    → HasOneVoPerLink tasks
all_pairs qs tasks h a =
    Each-map (λ x. IsOfOne qs x.transfer) _ tasks
      (λ x o.
        Each-map (λ y. IsOfOne qs y.transfer) _ tasks
          (λ y p. same_vo_on_link qs x.transfer y.transfer h o p) a)
      a

abbrev Schedules : Option Round → Type 0
Schedules o = (r : Round) × (o ≡ some r) × HasOneVoPerLink r.tasks

schedule-Schedules :
    (e : Environment) (queues unschedulable : List QueueId)
    → HasOnePerLink queues
    → Each (λ f. is_empty f.1 ≡ false) (e.get_ready_transfers queues)
    → Each (λ f. Each (IsOfOne queues) f.1) (e.get_ready_transfers queues)
    → Schedules (schedule e queues unschedulable)
unfolding schedule with_tasks
schedule-Schedules e queues unschedulable h n p =
    let (l, k, a) = get_files-given (IsOfOne queues) e queues n p in
    elim (Bool-cases (is_empty queues)) [
      | inl b ↦ rw b (_, refl, tt)
      | inr b ↦ rw (b, k) (_, refl, all_pairs queues l h a)
    ]

module _ {F G : Type 0} ⦃d : Double F⦄ ⦃r : Generator F G⦄ where
  abbrev pub chosen_of : (Pair → List (String × F)) → List QueueId → G → List QueueId
  chosen_of get_share_config queues g = (apply_vo_shares get_share_config queues ([], g)).0

  -- If the database gives no VO without files, and only files of the links and VOs of the queues that it
  -- is asked for, a round ends, and any two transfers that it starts are on different links or of one VO.
  pub execute_urlcopy-HasOneVoPerLink :
      (e : Environment) (config : Pair → List (String × F)) (queues : List QueueId) (g : G)
      → Each (λ f. is_empty f.1 ≡ false) (e.get_ready_transfers (chosen_of config queues g))
      → Each
          (λ f. Each (IsOfOne (chosen_of config queues g)) f.1)
          (e.get_ready_transfers (chosen_of config queues g))
      → (x : Round) × (execute_urlcopy e config queues g ≡ some x) × HasOneVoPerLink x.tasks
  unfolding execute_urlcopy
  execute_urlcopy-HasOneVoPerLink e config queues g n p =
      elim (Bool-cases (le_ℤ (e.max_url_copy -ℤ e.url_copy_count_before) (pos 0))) [
        | inl b ↦ rw b (nothing_done, refl, tt)
        | inr b ↦ rw b (
            schedule-Schedules e (chosen_of config queues g) _
              (apply_vo_shares-HasOnePerLink config queues [] g) n p)
      ]
