-- ===== src/Common/Assoc.antt =====
-- `std::map` as an association list: one entry for each key that was ever written.
use mathlib.Core.Path.{◌≡◌, refl, sym, subst}
use mathlib.Core.Option.{Option, none, some}
use mathlib.Core.List.{List, [], ◌∷◌}
use native.Mathlib.Omega.{arith}
use Prim.Native.Nat.{ℕ, ◌+◌}
use mathlib.Core.Bool.{false}
use mathlib.Core.Logic.{inl, inr}
use fts.Common.Tests.{if◌then◌else◌, Bool-cases}
use fts.Common.Lists.{Each}
use fts.Common.Equality.{Key, ◌==◌}

abbrev pub Dict {ℓ κ} : Type ℓ → Type κ → Type (ℓ ⊔ κ)
Dict K V = List (K × V)

-- The value of a key that is there, or the one that is given.
abbrev pub get_or {ℓ} : {A : Type ℓ} → A → Option A → A
get_or a none = a
get_or a (some b) = b

module _ {ℓ κ} {K : Type ℓ} {V : Type κ} ⦃e : Key K⦄ where
  -- m.find(k)
  unfoldable pub find : K → Dict K V → Option V
  find k [] = none
  find k ((j, v) ∷ m) = if j == k then some v else find k m

  -- m[k] = v
  unfoldable pub put : K → V → Dict K V → Dict K V
  put k v [] = (k, v) ∷ []
  put k v ((j, w) ∷ m) = if j == k then (j, v) ∷ m else (j, w) ∷ put k v m

  pub find-put :
      (k j : K) (v : V) (m : Dict K V) → find j (put k v m) ≡ (if k == j then some v else find j m)
  unfolding find put
  find-put k j v [] = refl
  find-put k j v ((i, w) ∷ m) =
      ground (arith, e.same_iff k j, e.same_iff i k, e.same_iff i j, find-put k j v m)

  pub find-put_self : (k : K) (v : V) (m : Dict K V) → find k (put k v m) ≡ some v
  find-put_self k v m = ground (arith, find-put k k v m, e.same_iff k k)

  -- m.erase(k)
  unfoldable pub erase : K → Dict K V → Dict K V
  erase k [] = []
  erase k ((j, v) ∷ m) = if j == k then m else (j, v) ∷ erase k m

  -- The sum of a number for each entry.
  unfoldable pub weigh : (K → V → ℕ) → Dict K V → ℕ
  weigh f [] = 0
  weigh f ((k, v) ∷ m) = f k v + weigh f m

  pub weigh-put :
      (f : K → V → ℕ) (k : K) (v w : V) (m : Dict K V)
      → find k m ≡ some v
      → weigh f (put k w m) + f k v ≡ weigh f m + f k w
  unfolding find put weigh
  weigh-put f k v w [] h = ground arith
  weigh-put f k v w ((j, u) ∷ m) h = ground (arith, e.same_iff j k, weigh-put f k v w m)

  pub weigh-erase :
      (f : K → V → ℕ) (k : K) (v : V) (m : Dict K V)
      → find k m ≡ some v
      → weigh f (erase k m) + f k v ≡ weigh f m
  unfolding find erase weigh
  weigh-erase f k v [] h = ground arith
  weigh-erase f k v ((j, u) ∷ m) h = ground (arith, e.same_iff j k, weigh-erase f k v m)

  -- A new entry adds its number.
  pub weigh-put_new :
      (f : K → V → ℕ) (k : K) (w : V) (m : Dict K V)
      → find k m ≡ none
      → weigh f (put k w m) ≡ weigh f m + f k w
  unfolding find put weigh
  weigh-put_new f k w [] h = omega arith
  weigh-put_new f k w ((j, u) ∷ m) h = ground (arith, e.same_iff j k, weigh-put_new f k w m)

  -- No entry has the key.
  abbrev pub IsFresh : K → Dict K V → Type 0
  IsFresh k m = Each (λ e. (e.0 == k) ≡ false) m

  abbrev pub HasDistinctKeys : Dict K V → Type 0
  HasDistinctKeys [] = Unit
  HasDistinctKeys (e ∷ m) = IsFresh e.0 m × HasDistinctKeys m

  pub find_fresh : (k : K) (m : Dict K V) → IsFresh k m → find k m ≡ none
  unfolding find
  find_fresh k [] h = refl
  find_fresh k ((j, v) ∷ m) h = rw h.0 (find_fresh k m h.1)

  IsFresh-put :
      (j k : K) (v : V) (m : Dict K V) → (k == j) ≡ false → IsFresh j m → IsFresh j (put k v m)
  unfolding put
  IsFresh-put j k v [] h hs = (h, tt)
  IsFresh-put j k v ((i, w) ∷ m) h hs = elim (Bool-cases (i == k)) [
    | inl e ↦ rw e hs
    | inr e ↦ rw e (hs.0, IsFresh-put j k v m h hs.1)
  ]

  pub HasDistinctKeys-put :
      (k : K) (v : V) (m : Dict K V) → HasDistinctKeys m → HasDistinctKeys (put k v m)
  unfolding put
  HasDistinctKeys-put k v [] h = (tt, tt)
  HasDistinctKeys-put k v ((i, w) ∷ m) h = elim (Bool-cases (i == k)) [
    | inl n ↦ rw n h
    | inr n ↦ rw n (
      IsFresh-put i k v m (ground (arith, n, e.same_iff i k, e.same_iff k i)) h.0,
      HasDistinctKeys-put k v m h.1,
    )
  ]

  IsFresh-erase : (j k : K) (m : Dict K V) → IsFresh j m → IsFresh j (erase k m)
  unfolding erase
  IsFresh-erase j k [] hs = tt
  IsFresh-erase j k ((i, w) ∷ m) hs = elim (Bool-cases (i == k)) [
    | inl e ↦ rw e (hs.1)
    | inr e ↦ rw e (hs.0, IsFresh-erase j k m hs.1)
  ]

  pub HasDistinctKeys-erase :
      (k : K) (m : Dict K V) → HasDistinctKeys m → HasDistinctKeys (erase k m)
  unfolding erase
  HasDistinctKeys-erase k [] h = tt
  HasDistinctKeys-erase k ((i, w) ∷ m) h = elim (Bool-cases (i == k)) [
    | inl n ↦ rw n (h.1)
    | inr n ↦ rw n (IsFresh-erase i k m h.0, HasDistinctKeys-erase k m h.1)
  ]

  pub find-erase :
      (k j : K) (m : Dict K V)
      → HasDistinctKeys m
      → find j (erase k m) ≡ (if k == j then none else find j m)
  unfolding find erase
  find-erase k j [] h = ground arith
  find-erase k j ((i, w) ∷ m) h =
      ground (
        arith,
        e.same_iff k j,
        e.same_iff i k,
        e.same_iff i j,
        find-erase k j m,
        find_fresh i m h.0,
      )

  module _ (f : K → V → ℕ) (k : K) (others : (j : K) (v : V) → (j == k) ≡ false → f j v ≡ 0) where
    weigh_fresh : (m : Dict K V) → IsFresh k m → weigh f m ≡ 0
    unfolding weigh
    weigh_fresh [] h = refl
    weigh_fresh ((j, w) ∷ m) h = omega (arith, others j w h.0, weigh_fresh m h.1)

    -- Where only the entry of the key counts, the sum is its number.
    pub weigh_single :
        (v : V) (m : Dict K V) → HasDistinctKeys m → find k m ≡ some v → weigh f m ≡ f k v
    unfolding weigh find
    weigh_single v [] d h = absurd (cc h)
    weigh_single v ((j, w) ∷ m) d h = elim (Bool-cases (j == k)) [
      | inl n ↦
          let s = subst (λ k. IsFresh k m) ((e.same_iff j k).0 n) d.0 in
          ground (arith, n, h, e.same_iff j k, weigh_fresh m s)
      | inr n ↦ ground (arith, n, others j w n, weigh_single v m d.1)
    ]

  module _ {μ} (P : K × V → Type μ) where
    pub Each-find : (k : K) (v : V) (m : Dict K V) → find k m ≡ some v → Each P m → P (k, v)
    unfolding find
    Each-find k v [] h hs = absurd (cc h)
    Each-find k v ((j, w) ∷ m) h hs = elim (Bool-cases (j == k)) [
      | inl n ↦ subst P (ground (arith, n, h, e.same_iff j k)) hs.0
      | inr n ↦ Each-find k v m (ground (arith, n, h)) hs.1
    ]

    pub Each-put : (k : K) (v : V) (m : Dict K V) → P (k, v) → Each P m → Each P (put k v m)
    unfolding put
    Each-put k v [] h hs = (h, tt)
    Each-put k v ((j, w) ∷ m) h hs = elim (Bool-cases (j == k)) [
      | inl n ↦ rw n (subst (λ j. P (j, v)) (sym ((e.same_iff j k).0 n)) h, hs.1)
      | inr n ↦ rw n (hs.0, Each-put k v m h hs.1)
    ]

    pub Each-erase : (k : K) (m : Dict K V) → Each P m → Each P (erase k m)
    unfolding erase
    Each-erase k [] hs = tt
    Each-erase k ((j, w) ∷ m) hs = elim (Bool-cases (j == k)) [
      | inl n ↦ rw n (hs.1)
      | inr n ↦ rw n (hs.0, Each-erase k m hs.1)
    ]
