-- ===== src/Optimizer/PairOrder.antt =====
-- `operator <` of `std::string` and of `Pair` is a strict order.
use Prim.Native.Char.{code}
use Prim.Native.String.{String}
use text.Mathlib.TextEquality.{Char-path}
use fts.Common.{ap, arith, false, refl, str_beq_iff, true, ◌∙◌, ◌≡◌, ◌≢◌}
use fts.Optimizer.Run.{lt_pair, lt_string}
use fts.Optimizer.Types.{Pair, pair_beq_iff}

lt_string_irrefl : (s : String) → lt_string s s ≡ false
unfolding lt_string
lt_string_irrefl String.[] = refl
lt_string_irrefl (String.◌∷◌ c s) = ground (arith, lt_string_irrefl s)

lt_string_trans :
    (r s t : String) → lt_string r s ≡ true → lt_string s t ≡ true → lt_string r t ≡ true
unfolding lt_string
lt_string_trans String.[] String.[] t h k = absurd (cc h)
lt_string_trans String.[] (String.◌∷◌ c s) String.[] h k = absurd (cc k)
lt_string_trans String.[] (String.◌∷◌ c s) (String.◌∷◌ d t) h k = refl
lt_string_trans (String.◌∷◌ b r) String.[] t h k = absurd (cc h)
lt_string_trans (String.◌∷◌ b r) (String.◌∷◌ c s) String.[] h k = absurd (cc k)
lt_string_trans (String.◌∷◌ b r) (String.◌∷◌ c s) (String.◌∷◌ d t) h k =
    ground (arith, h, k, lt_string_trans r s t)

pub lt_pair_irrefl : (p : Pair) → lt_pair p p ≡ false
unfolding lt_pair
lt_pair_irrefl p = ground (arith, lt_string_irrefl p.source, lt_string_irrefl p.destination)

pub lt_pair_trans : (p q r : Pair) → lt_pair p q ≡ true → lt_pair q r ≡ true → lt_pair p r ≡ true
unfolding lt_pair
lt_pair_trans p q r h k = ground (
  arith,
  h,
  k,
  str_beq_iff p.source q.source,
  str_beq_iff q.source r.source,
  str_beq_iff p.source r.source,
  lt_string_trans p.source q.source r.source,
  lt_string_trans p.destination q.destination r.destination,
)

lt_string_total : (s t : String) → lt_string s t ≡ false → lt_string t s ≡ false → s ≡ t
unfolding lt_string
lt_string_total String.[] String.[] h k = refl
lt_string_total String.[] (String.◌∷◌ c t) h k = absurd (cc h)
lt_string_total (String.◌∷◌ c s) String.[] h k = absurd (cc k)
lt_string_total (String.◌∷◌ b s) (String.◌∷◌ c t) h k =
    let same_tail = lt_string_total s t in
    let same_code : code b ≡ code c = ground (arith, h, k) in
    let tails : s ≡ t = ground (arith, h, k, same_code, same_tail) in
    ap (λ x. String.◌∷◌ x s) (Char-path b c same_code) ∙ ap (λ x. String.◌∷◌ c x) tails

pub lt_pair_total : (p q : Pair) → p ≢ q → lt_pair p q ≡ false → lt_pair q p ≡ true
unfolding lt_pair
lt_pair_total p q ne h = ground (
  arith,
  ne,
  h,
  pair_beq_iff p q,
  str_beq_iff p.source q.source,
  str_beq_iff p.destination q.destination,
  str_beq_iff q.source p.source,
  str_beq_iff q.destination p.destination,
  lt_string_total p.source q.source,
  lt_string_total p.destination q.destination,
)
