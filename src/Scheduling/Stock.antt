-- ===== src/Scheduling/Stock.antt =====
-- Every index that waits has a file: what `get` comes to.
use fts.Common.{
  Bool-cases, Each, List, Option, String, [], ap, arith, false, find, find-put, get_or,
  if◌then◌else◌, inl, inr, length, none, put, refl, some, subst, sym, true, ℕ, ◌+◌, ◌==◌, ◌∙◌, ◌∷◌,
  ◌≡◌, ◌≤◌, string_key, nat_key,
}
use fts.CommandLine.Types.{TransferFile}
use fts.Optimizer.Types.{pair_key}
use fts.Scheduling.Amounts.{amount, amount-taken}
use fts.Scheduling.Handler.{
  Handler, file_of_index, files_at, get, get_file, get_index, pop_file, store_links, without_front,
}
use fts.Scheduling.Ready.{IsReady}
use fts.Scheduling.StaysReady.{taken-IsReady}
use fts.Scheduling.Turns.{Takes, get_index-Takes, no_entry, taken, takes, turned}
use fts.Scheduling.Types.{FileIndex, index_key, index_of}
use fts.Transfers.LinkMap.{LinkMap}

abbrev pub at_index : FileIndex → String → FileIndex → ℕ
at_index i vo j = if j == i then 1 else 0

-- An index has at least as many files as it waits times, and only files of its own.
pub record IsStocked (h : Handler) : Type 0 where
  pub enough : (i : FileIndex) → amount (at_index i) h ≤ length (files_at i h)
  pub named : (i : FileIndex) → Each (λ t. index_of t ≡ i) (files_at i h)

-- Nothing for a VO without an entry; otherwise a file, whose index waits once less for the VO.
pub data Hands (vo : String) (h : Handler) : Option TransferFile × Handler → Type 0 where
  nothing_left : find vo h.vo_to_file_indexes ≡ none → Hands vo h (none, h)
  hands :
      (t : TransferFile) (h' : Handler)
      → IsReady h'
      → IsStocked h'
      → h'.vos ≡ h.vos
      → ((u : String → FileIndex → ℕ) → amount u h' + u vo (index_of t) ≡ amount u h)
      → Hands vo h (some t, h')

pub store_links_files :
    (vo : String) (m : LinkMap FileIndex) (h : Handler)
    → (store_links vo m h).file_index_to_files ≡ h.file_index_to_files
store_links_files vo [] h = refl
store_links_files vo (e ∷ m) h = refl

store_links_vos :
    (vo : String) (m : LinkMap FileIndex) (h : Handler) → (store_links vo m h).vos ≡ h.vos
store_links_vos vo [] h = refl
store_links_vos vo (e ∷ m) h = refl

module _ (vo : String) (i : FileIndex) (h h₁ : Handler)
    (same : h₁.file_index_to_files ≡ h.file_index_to_files)
    (one_less : (u : String → FileIndex → ℕ) → amount u h₁ + u vo i ≡ amount u h) (s : IsStocked h)
    (t : TransferFile) (ts : List TransferFile) (e : files_at i h ≡ t ∷ ts) where
  popped : Handler
  popped = record h₁ { file_index_to_files = put i ts h₁.file_index_to_files }

  files_after : (j : FileIndex) → files_at j popped ≡ (if i == j then ts else files_at j h)
  unfolding popped
  files_after j = rw same (
      rw (find-put i j ts h.file_index_to_files)
        (elim (Bool-cases (i == j)) [ inl k ↦ rw k refl | inr k ↦ rw k refl ]))

  -- The index of the file waits once less, and the others as often.
  unit_here : (j : FileIndex) → (i == j) ≡ true → at_index j vo i ≡ 1
  unit_here j k = rw k refl

  unit_there : (j : FileIndex) → (i == j) ≡ false → at_index j vo i ≡ 0
  unit_there j k = rw k refl

  enough_after :
      (j : FileIndex) (l : List TransferFile)
      → files_at j popped ≡ l
      → length (files_at j h) ≡ length l + at_index j vo i
      → amount (at_index j) popped ≤ length (files_at j popped)
  unfolding popped
  enough_after j l f n =
      rw f (let a = s.enough j in let b = one_less (at_index j) in omega (arith, a, b, n))

  popped-IsStocked : IsStocked popped
  unfolding popped
  popped-IsStocked = record {
    enough = λ j. elim (Bool-cases (i == j)) [
      | inl k ↦
          enough_after j ts (files_after j ∙ rw k refl)
            (rw (unit_here j k) (rw (← (index_key.same_iff i j).0 k) (rw e (omega arith))))
      | inr k ↦
          enough_after j (files_at j h) (files_after j ∙ rw k refl)
            (rw (unit_there j k) (omega arith))
    ];
    named = λ j. elim (Bool-cases (i == j)) [
      | inl k ↦ subst (Each (λ t. index_of t ≡ j)) (sym (files_after j ∙ rw k refl)) (
          subst (λ j. Each (λ t. index_of t ≡ j) ts) ((index_key.same_iff i j).0 k)
            (subst (Each (λ t. index_of t ≡ i)) e (s.named i)).1)
      | inr k ↦ subst (Each (λ t. index_of t ≡ j)) (sym (files_after j ∙ rw k refl)) (s.named j)
    ];
  }

  popped-Hands : IsReady h₁ → h₁.vos ≡ h.vos → Hands vo h (some t, popped)
  unfolding popped
  popped-Hands r v =
      hands t popped
        (record { distinct = r.distinct; listed = r.listed; filled = r.filled; turns = r.turns })
        popped-IsStocked v
        (λ u. rw (subst (Each (λ t. index_of t ≡ i)) e (s.named i)).0 (one_less u))

pop_file-Hands :
    (vo : String) (i : FileIndex) (h h₁ : Handler)
    → h₁.file_index_to_files ≡ h.file_index_to_files
    → ((u : String → FileIndex → ℕ) → amount u h₁ + u vo i ≡ amount u h)
    → IsStocked h
    → IsReady h₁
    → h₁.vos ≡ h.vos
    → (l : List TransferFile) → files_at i h ≡ l
    → Hands vo h (pop_file i l h₁)
unfolding pop_file popped
pop_file-Hands vo i h h₁ same one_less s r v [] e =
    absurd (omega (arith, s.enough i, one_less (at_index i), none_there, one))
  where
    none_there : length (files_at i h) ≡ 0
    none_there = ap length e

    one : at_index i vo i ≡ 1
    one = ground (arith, index_key.same_iff i i)
pop_file-Hands vo i h h₁ same one_less s r v (t ∷ ts) e =
    popped-Hands vo i h h₁ same one_less s t ts e r v

get_file-Hands :
    (vo : String) (h : Handler) (x : Option FileIndex × Handler)
    → IsReady h
    → IsStocked h
    → Takes vo h x
    → Hands vo h (file_of_index x)
unfolding file_of_index get_file
get_file-Hands vo h x r s (no_entry e) = nothing_left e
get_file-Hands vo h x r s (takes p i rest m hm hp) =
    let same = store_links_files vo (without_front p rest m) (turned vo p m h) in
    rw (ap (λ f. get_or [] (find i f)) same) (
      pop_file-Hands vo i h (taken vo p rest m h) same (λ u. amount-taken u vo p i rest m h hm hp) s
        (taken-IsReady vo p i rest m h r hm)
        (store_links_vos vo (without_front p rest m) (turned vo p m h)) (files_at i h) refl)

-- What `get` comes to on a handler that is ready and stocked.
pub get-Hands : (vo : String) (h : Handler) → IsReady h → IsStocked h → Hands vo h (get vo h)
unfolding get
get-Hands vo h r s = get_file-Hands vo h (get_index vo h) r s (get_index-Takes vo h r)
