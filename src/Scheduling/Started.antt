-- ===== src/Scheduling/Started.antt =====
-- What one turn of a VO starts.
use fts.Common.{
  Bool, Bool-cases, List, Option, String, [], ap, arith, false, if◌then◌else◌, inl, inr, le_ℤ, pos,
  refl, some, subst, suc, sym, ℕ, ◌++◌, ◌+◌, ◌-ℤ◌, ◌∙◌, ◌∷◌, ◌≡◌,
}
use fts.CommandLine.Types.{TransferFile}
use fts.Scheduling.Amounts.{amount}
use fts.Scheduling.Handler.{Handler, get}
use fts.Scheduling.Ready.{IsReady}
use fts.Scheduling.Serve.{
  Serving, Task, is_incomplete, left_for, note_activity, note_proxy, serve_file, serve_got,
  serve_vo, start_if_free, start_task,
}
use fts.Scheduling.Slots.{take_slots}
use fts.Scheduling.Steps.{serve_got_handler}
use fts.Scheduling.Stock.{Hands, IsStocked, get-Hands, hands, nothing_left}
use fts.Scheduling.Types.{FileIndex, index_of}

-- The tasks whose transfers pass a test.
unfoldable pub tally : (TransferFile → Bool) → List Task → ℕ
tally p [] = 0
tally p (x ∷ tasks) = (if p x.transfer then 1 else 0) + tally p tasks

pub tally-append :
    (p : TransferFile → Bool) (l k : List Task) → tally p (l ++ k) ≡ tally p l + tally p k
unfolding tally
tally-append p [] k = omega arith
tally-append p (x ∷ l) k = omega (arith, tally-append p l k)

pub tally_one :
    (p : TransferFile → Bool) (x : Task) → tally p (x ∷ []) ≡ (if p x.transfer then 1 else 0)
unfolding tally
tally_one p x = omega arith

-- What serving a file does to the tasks, the limits and the free processes.
pub data Serves (t : TransferFile) (s : Serving) (s' : Serving) : Type 0 where
  passed_over : s'.tasks ≡ s.tasks → s'.slots ≡ s.slots → s'.available ≡ s.available → Serves t s s'
  started :
      (x : Task)
      → x.transfer ≡ t
      → le_ℤ (left_for t.dest_se s.slots.left_for_destination) (pos 0) ≡ false
      → le_ℤ (left_for t.source_se s.slots.left_for_source) (pos 0) ≡ false
      → s'.tasks ≡ s.tasks ++ x ∷ []
      → s'.slots ≡ record {
        left_for_destination = take_slots t.dest_se 1 s.slots.left_for_destination;
        left_for_source = take_slots t.source_se 1 s.slots.left_for_source;
      }
      → s'.available ≡ s.available -ℤ pos 1
      → Serves t s s'

start_if_free-Serves : (t : TransferFile) (s : Serving) → Serves t s (start_if_free t s)
unfolding start_if_free start_task
start_if_free-Serves t s =
    elim (Bool-cases (le_ℤ (left_for t.dest_se s.slots.left_for_destination) (pos 0))) [
      | inl a ↦ rw a (passed_over refl refl refl)
      | inr a ↦
          rw a (elim (Bool-cases (le_ℤ (left_for t.source_se s.slots.left_for_source) (pos 0))) [
            | inl b ↦ rw b (passed_over refl refl refl)
            | inr b ↦ rw b (started _ refl a b refl refl refl)
          ])
    ]

-- Notes on activities and proxies change nothing of that.
Serves-same :
    (t : TransferFile) (s s₁ s' : Serving)
    → s₁.tasks ≡ s.tasks
    → s₁.slots ≡ s.slots
    → s₁.available ≡ s.available
    → Serves t s₁ s'
    → Serves t s s'
Serves-same t s s₁ s' a b c (passed_over h k l) = passed_over (h ∙ a) (k ∙ b) (l ∙ c)
Serves-same t s s₁ s' a b c (started x e d f h k l) =
    started x e (ap (λ z. le_ℤ (left_for t.dest_se z.left_for_destination) (pos 0)) (sym b) ∙ d)
      (ap (λ z. le_ℤ (left_for t.source_se z.left_for_source) (pos 0)) (sym b) ∙ f)
      (h ∙ ap (λ l. l ++ x ∷ []) a)
      (k
        ∙ ap
            (λ z. record {
              left_for_destination = take_slots t.dest_se 1 z.left_for_destination;
              left_for_source = take_slots t.source_se 1 z.left_for_source;
            })
            b)
      (l ∙ ap (λ n. n -ℤ pos 1) c)

module _ (get_proxy_file : String → String → String) where
  serve_file-Serves : (t : TransferFile) (s : Serving) → Serves t s (serve_file get_proxy_file t s)
  unfolding serve_file
  serve_file-Serves t s = elim (Bool-cases (is_incomplete t)) [
    | inl a ↦ rw a (passed_over refl refl refl)
    | inr a ↦ rw a (
        Serves-same t s (note_proxy get_proxy_file t (note_activity t s)) _ (noted_tasks t s)
          (noted_slots t s) (noted_available t s) (start_if_free-Serves t _))
  ]
    where
      noted_tasks :
          (t : TransferFile) (s : Serving)
          → (note_proxy get_proxy_file t (note_activity t s)).tasks ≡ s.tasks
      noted_tasks t s = ground arith

      noted_slots :
          (t : TransferFile) (s : Serving)
          → (note_proxy get_proxy_file t (note_activity t s)).slots ≡ s.slots
      noted_slots t s = ground arith

      noted_available :
          (t : TransferFile) (s : Serving)
          → (note_proxy get_proxy_file t (note_activity t s)).available ≡ s.available
      noted_available t s = ground arith

  pub serve_got-Serves :
      (t : TransferFile) (h : Handler) (s : Serving)
      → Serves t (record s { handler = h }) (serve_got get_proxy_file (some t, h) s)
  unfolding serve_got
  serve_got-Serves t h s = serve_file-Serves t (record s { handler = h })

-- Of one turn of a VO: nothing, or the file that the handler hands out.
pub data Visits (vo : String) (s : Serving) (s' : Serving) : Type 0 where
  no_file :
      s'.handler ≡ s.handler
      → s'.tasks ≡ s.tasks
      → s'.slots ≡ s.slots
      → s'.available ≡ s.available
      → Visits vo s s'
  file :
      (t : TransferFile)
      → IsReady s'.handler
      → IsStocked s'.handler
      → ((u : String → FileIndex → ℕ)
          → amount u s'.handler + u vo (index_of t) ≡ amount u s.handler)
      → Serves t s s'
      → Visits vo s s'

module _ (get_proxy_file : String → String → String) where
  visits :
      (vo : String) (s s' : Serving) (x : Option TransferFile × Handler)
      → Hands vo s.handler x
      → serve_got get_proxy_file x (record s { checks = suc s.checks }) ≡ s'
      → Visits vo s s'
  unfolding serve_got
  visits vo s s' x (nothing_left e) h = subst (Visits vo s) h (no_file refl refl refl refl)
  visits vo s s' x (hands t h' r k v a) h =
      let s₁ : Serving = record s { checks = suc s.checks } in
      let same = serve_got_handler get_proxy_file (some t, h') s₁ in
      subst (Visits vo s) h (
        file t (subst IsReady (sym same) r) (subst IsStocked (sym same) k)
          (λ u. ap (λ h. amount u h + u vo (index_of t)) same ∙ a u)
          (Serves-same t s (record s₁ { handler = h' }) _ refl refl refl
            (serve_got-Serves get_proxy_file t h' s₁)))

  pub serve_vo-Visits :
      (vo : String) (s : Serving)
      → IsReady s.handler
      → IsStocked s.handler
      → Visits vo s (serve_vo get_proxy_file vo s)
  unfolding serve_vo
  serve_vo-Visits vo s r k = visits vo s _ (get vo s.handler) (get-Hands vo s.handler r k) refl
