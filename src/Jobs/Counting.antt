-- ===== src/Jobs/Counting.antt =====
-- Counting the distinct indices: where a part has as many as the whole, it has every index.
use fts.Common.{
  Bool, Bool-cases, Each, List, [], ap, arith, false, if◌then◌else◌, inl, inr, nat_beq, nat_beq_iff,
  refl, sym, true, ℕ, ◌∙◌, ◌∷◌, ◌≡◌,
}
use fts.Jobs.Tables.{distinct, is_member}
use Prim.Native.Nat.{zero, suc, ◌+◌, ◌<◌, ◌≤◌}

abbrev bit : Bool → ℕ
bit true = 1
bit false = 0

-- How many of the first numbers are members.
unfoldable below_bound : ℕ → List ℕ → ℕ
below_bound zero ns = 0
below_bound (suc b) ns = bit (is_member b ns) + below_bound b ns

-- All the numbers are below the bound.
abbrev AllBelow : ℕ → List ℕ → Type 0
AllBelow b ns = Each (λ (n : ℕ). n < b) ns

below_bound-nil : (b : ℕ) → below_bound b [] ≡ 0
unfolding below_bound is_member
below_bound-nil zero = refl
below_bound-nil (suc b) = ground (arith, below_bound-nil b)

below_bound-above : (b n : ℕ) (ns : List ℕ) → b ≤ n → below_bound b (n ∷ ns) ≡ below_bound b ns
unfolding below_bound is_member
below_bound-above zero n ns h = refl
below_bound-above (suc b) n ns h = ground (arith, h, below_bound-above b n ns)

below_bound-cons :
    (b n : ℕ) (ns : List ℕ)
    → n < b
    → below_bound b (n ∷ ns) ≡ (if is_member n ns then 0 else 1) + below_bound b ns
unfolding below_bound is_member
below_bound-cons zero n ns h = absurd (omega (arith, h))
below_bound-cons (suc b) n ns h = elim (Bool-cases (nat_beq b n)) [
  | inl e ↦
      let same = ap (λ (m : ℕ). is_member m ns) ((nat_beq_iff b n).0 e) in
      ground (arith, e, same, below_bound-above b n ns (ground (arith, e)))
  | inr e ↦ ground (arith, e, below_bound-cons b n ns (ground (arith, e, h)))
]

distinct-below_bound : (b : ℕ) (ns : List ℕ) → AllBelow b ns → distinct ns ≡ below_bound b ns
unfolding distinct
distinct-below_bound b [] h = sym (below_bound-nil b)
distinct-below_bound b (n ∷ ns) h =
    ground (arith, h.0, below_bound-cons b n ns h.0, distinct-below_bound b ns h.1)

-- Every member of the first list is one of the second.
abbrev IsPart : List ℕ → List ℕ → Type 0
IsPart ms ns = (m : ℕ) → is_member m ms ≡ true → is_member m ns ≡ true

below_bound-le : (b : ℕ) (ms ns : List ℕ) → IsPart ms ns → below_bound b ms ≤ below_bound b ns
unfolding below_bound
below_bound-le zero ms ns h = omega arith
below_bound-le (suc b) ms ns h = elim (Bool-cases (is_member b ms)) [
  | inl e ↦ ground (arith, e, h b e, below_bound-le b ms ns h)
  | inr e ↦ ground (arith, e, below_bound-le b ms ns h)
]

same_members :
    (b : ℕ) (ms ns : List ℕ)
    → IsPart ms ns
    → below_bound b ms ≡ below_bound b ns
    → (m : ℕ) → m < b
    → is_member m ns ≡ true
    → is_member m ms ≡ true
unfolding below_bound
same_members zero ms ns h e m l i = absurd (omega (arith, l))
same_members (suc b) ms ns h e m l i = elim (Bool-cases (is_member b ms)) [
  | inl x ↦ elim (Bool-cases (nat_beq m b)) [
    | inl y ↦ ap (λ (m : ℕ). is_member m ms) ((nat_beq_iff m b).0 y) ∙ x
    | inr y ↦ same_members b ms ns h (ground (arith, e, x, h b x)) m (ground (arith, y, l)) i
  ]
  | inr x ↦ elim (Bool-cases (is_member b ns)) [
    | inl z ↦ absurd (ground (arith, e, x, z, below_bound-le b ms ns h))
    | inr z ↦ elim (Bool-cases (nat_beq m b)) [
      | inl y ↦ absurd (cc (i, z, ap (λ (m : ℕ). is_member m ns) ((nat_beq_iff m b).0 y)))
      | inr y ↦ same_members b ms ns h (ground (arith, e, x, z)) m (ground (arith, y, l)) i
    ]
  ]
]

-- A number above all of the list.
bound_of : List ℕ → ℕ
bound_of [] = 0
bound_of (n ∷ ns) = suc n + bound_of ns

AllBelow-le : (b c : ℕ) (ns : List ℕ) → b ≤ c → AllBelow b ns → AllBelow c ns
AllBelow-le b c [] h k = tt
AllBelow-le b c (n ∷ ns) h k = (omega (arith, h, k.0), AllBelow-le b c ns h k.1)

bound_of-AllBelow : (ns : List ℕ) → AllBelow (bound_of ns) ns
unfolding bound_of
bound_of-AllBelow [] = tt
bound_of-AllBelow (n ∷ ns) = (
  omega arith,
  AllBelow-le (bound_of ns) (suc n + bound_of ns) ns (omega arith) (bound_of-AllBelow ns),
)

AllBelow-member : (b m : ℕ) (ns : List ℕ) → AllBelow b ns → is_member m ns ≡ true → m < b
unfolding is_member
AllBelow-member b m [] h i = absurd (cc i)
AllBelow-member b m (n ∷ ns) h i = elim (Bool-cases (nat_beq m n)) [
  | inl e ↦ ground (arith, e, h.0)
  | inr e ↦ AllBelow-member b m ns h.1 (ground (arith, e, i))
]

AllBelow-part : (b : ℕ) (ms ns : List ℕ) → AllBelow b ns → IsPart ms ns → AllBelow b ms
unfolding is_member
AllBelow-part b [] ns h k = tt
AllBelow-part b (m ∷ ms) ns h k = (
  AllBelow-member b m ns h (k m (ground arith)),
  AllBelow-part b ms ns h (λ x i. k x (ground (arith, i))),
)

-- A part with as many distinct members as the whole has all its members.
pub distinct-same_members :
    (ms ns : List ℕ)
    → IsPart ms ns
    → distinct ms ≡ distinct ns
    → (m : ℕ) → is_member m ns ≡ true
    → is_member m ms ≡ true
distinct-same_members ms ns h e m i =
    let b = bound_of ns in
    let below = bound_of-AllBelow ns in
    same_members b ms ns h
      (sym (distinct-below_bound b ms (AllBelow-part b ms ns below h))
        ∙ e
        ∙ distinct-below_bound b ns below)
      m (AllBelow-member b m ns below i) i
