-- ===== src/Jobs/Lifecycle.antt =====
-- The life of a file: an automaton, and what it means that rows follow it, and that jobs stay closed.
use fts.Common.{Bool, List, [], false, if◌then◌else◌, refl, subst, true, ◌&&◌, ◌∙◌, ◌∷◌, ◌≡◌}
use fts.Jobs.Tables.{is_open, is_terminal, update}
use fts.Jobs.Types.{File, Job, State, active, canceled, is_state, not_used, ready, submitted}

-- One step of a file: a report, or the choice or the cancellation of one that is not used.
pub data IsStep : State → State → Type 0 where
  reported :
      {a b : State}
      → is_terminal a ≡ false
      → (is_state a active && is_state b ready) ≡ false
      → IsStep a b
  selected : IsStep not_used submitted
  dropped : IsStep not_used canceled

pub data IsPath : State → State → Type 0 where
  stays : {a : State} → IsPath a a
  then_step : {a b c : State} → IsPath a b → IsStep b c → IsPath a c

abbrev pub IsPath-trans : (a b c : State) → IsPath a b → IsPath b c → IsPath a c
IsPath-trans a b c p stays = p
IsPath-trans a b c p (then_step q s) = then_step (IsPath-trans a _ _ p q) s

-- The row stands for the same file, follows the automaton, and is not touched any more once it has
-- reached a terminal state.
pub record Evolves (f g : File) : Type 0 where
  pub same_id : f.file_id ≡ g.file_id
  pub same_job : f.job_id ≡ g.job_id
  pub path : IsPath f.file_state g.file_state
  pub kept : is_terminal f.file_state ≡ true → f ≡ g

pub Evolves-refl : (f : File) → Evolves f f
Evolves-refl f = record { same_id = refl; same_job = refl; path = stays; kept = λ _. refl }

pub Evolves-trans : (f g h : File) → Evolves f g → Evolves g h → Evolves f h
Evolves-trans f g h x y = record {
  same_id = x.same_id ∙ y.same_id;
  same_job = x.same_job ∙ y.same_job;
  path = IsPath-trans f.file_state g.file_state h.file_state x.path y.path;
  kept = λ t.
      let e = x.kept t in e ∙ y.kept (subst (λ (k : File). is_terminal k.file_state ≡ true) e t);
}

-- The tables have the same rows, which have evolved.
abbrev pub Rows : List File → List File → Type 0
Rows [] [] = Unit
Rows [] (g ∷ gs) = ⊥
Rows (f ∷ fs) [] = ⊥
Rows (f ∷ fs) (g ∷ gs) = Evolves f g × Rows fs gs

pub Rows-refl : (fs : List File) → Rows fs fs
Rows-refl [] = tt
Rows-refl (f ∷ fs) = (Evolves-refl f, Rows-refl fs)

pub Rows-trans : (fs gs hs : List File) → Rows fs gs → Rows gs hs → Rows fs hs
Rows-trans [] [] [] x y = tt
Rows-trans (f ∷ fs) (g ∷ gs) (h ∷ hs) x y =
    (Evolves-trans f g h x.0 y.0, Rows-trans fs gs hs x.1 y.1)
Rows-trans [] [] (h ∷ hs) x y = y
Rows-trans [] (g ∷ gs) hs x y = absurd x
Rows-trans (f ∷ fs) [] hs x y = absurd x
Rows-trans (f ∷ fs) (g ∷ gs) [] x y = absurd y

Evolves-if : (b : Bool) (f g : File) → (b ≡ true → Evolves f g) → Evolves f (if b then g else f)
Evolves-if true f g h = h refl
Evolves-if false f g h = Evolves-refl f

-- A statement whose rows evolve.
pub Rows-update :
    (p : File → Bool) (h : File → File) (fs : List File)
    → ((f : File) → p f ≡ true → Evolves f (h f))
    → Rows fs (update p h fs)
unfolding update
Rows-update p h [] k = tt
Rows-update p h (f ∷ fs) k = (Evolves-if (p f) f (h f) (k f), Rows-update p h fs k)

-- A step out of a state that is not terminal.
pub Evolves-step :
    (f g : File)
    → f.file_id ≡ g.file_id
    → f.job_id ≡ g.job_id
    → is_terminal f.file_state ≡ false
    → IsStep f.file_state g.file_state
    → Evolves f g
Evolves-step f g i j t s = record {
  same_id = i;
  same_job = j;
  path = then_step stays s;
  kept = λ e. absurd (cc (t, e));
}

-- The row stands for the same job, and is not touched any more once it is closed.
pub record IsKept (j k : Job) : Type 0 where
  pub same_job_id : j.job_id ≡ k.job_id
  pub closed_kept : is_open j.job_state ≡ false → j ≡ k

pub IsKept-refl : (j : Job) → IsKept j j
IsKept-refl j = record { same_job_id = refl; closed_kept = λ _. refl }

abbrev pub JobRows : List Job → List Job → Type 0
JobRows [] [] = Unit
JobRows [] (k ∷ ks) = ⊥
JobRows (j ∷ js) [] = ⊥
JobRows (j ∷ js) (k ∷ ks) = IsKept j k × JobRows js ks

pub JobRows-refl : (js : List Job) → JobRows js js
JobRows-refl [] = tt
JobRows-refl (j ∷ js) = (IsKept-refl j, JobRows-refl js)

pub IsKept-trans : (i j k : Job) → IsKept i j → IsKept j k → IsKept i k
IsKept-trans i j k x y = record {
  same_job_id = x.same_job_id ∙ y.same_job_id;
  closed_kept = λ c.
      let e = x.closed_kept c in
      e ∙ y.closed_kept (subst (λ (j : Job). is_open j.job_state ≡ false) e c);
}

pub JobRows-trans : (is js ks : List Job) → JobRows is js → JobRows js ks → JobRows is ks
JobRows-trans [] [] [] x y = tt
JobRows-trans (i ∷ is) (j ∷ js) (k ∷ ks) x y =
    (IsKept-trans i j k x.0 y.0, JobRows-trans is js ks x.1 y.1)
JobRows-trans [] [] (k ∷ ks) x y = y
JobRows-trans [] (j ∷ js) ks x y = absurd x
JobRows-trans (i ∷ is) [] ks x y = absurd x
JobRows-trans (i ∷ is) (j ∷ js) [] x y = absurd y

IsKept-if : (b : Bool) (j k : Job) → (b ≡ true → IsKept j k) → IsKept j (if b then k else j)
IsKept-if true j k h = h refl
IsKept-if false j k h = IsKept-refl j

pub JobRows-update :
    (p : Job → Bool) (h : Job → Job) (js : List Job)
    → ((j : Job) → p j ≡ true → IsKept j (h j))
    → JobRows js (update p h js)
unfolding update
JobRows-update p h [] k = tt
JobRows-update p h (j ∷ js) k = (IsKept-if (p j) j (h j) (k j), JobRows-update p h js k)
