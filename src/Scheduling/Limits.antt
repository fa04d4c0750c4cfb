-- ===== src/Scheduling/Limits.antt =====
-- The transfers of a run stay within the limits of the storages and of the processes.
use fts.Common.{
  Bool, Bool-cases, Dict, List, Option, String, [], ap, arith, false, find, find-put, get_or,
  if◌then◌else◌, inl, inr, none, put, refl, some, str_beq_iff, sym, true, ℕ, ℤ, ◌+◌, ◌==◌, ◌||◌,
  ◌∙◌, ◌∷◌, ◌≡◌, string_key, nat_key,
}
use fts.CommandLine.Types.{TransferFile}
use fts.Scheduling.Slots.{
  Slots, StorageConfig, fill, fill_destination, fill_source, is_some, limit_or_default,
}
use fts.Transfers.VoShares.{QueueId}

-- The two ends of a transfer, each with its limit.
pub data Side : Type 0 where
  into_storage from_storage : Side

abbrev pub left_on : Side → Slots → Dict String ℤ
left_on into_storage s = s.left_for_destination
left_on from_storage s = s.left_for_source

abbrev pub limit_on : Side → StorageConfig → ℤ
limit_on into_storage c = limit_or_default c.inbound_max_active
limit_on from_storage c = limit_or_default c.outbound_max_active

abbrev pub queue_end : Side → QueueId → String
queue_end into_storage q = q.dest_se
queue_end from_storage q = q.source_se

abbrev pub file_end : Side → TransferFile → String
file_end into_storage t = t.dest_se
file_end from_storage t = t.source_se

-- The active transfers of the queues that have the storage at this end.
unfoldable pub active_on : Side → String → List QueueId → ℕ
active_on side se [] = 0
active_on side se (q ∷ queues) =
    (if queue_end side q == se then q.active_count else 0) + active_on side se queues

-- A storage has both limits or none.
abbrev pub HasBoth : Slots → Type 0
HasBoth s =
    (se : String) → is_some (find se s.left_for_destination) ≡ is_some (find se s.left_for_source)

pub some_put :
    (k j : String) (v : ℤ) (m : Dict String ℤ)
    → is_some (find j (put k v m)) ≡ ((k == j) || is_some (find j m))
some_put k j v m = ground (arith, find-put k j v m)

or_default : (z : ℤ) (o : Option ℤ) → is_some o ≡ false → get_or z o ≡ z
or_default z none n = refl
or_default z (some y) n = absurd (cc n)

pub or_other : (y z : ℤ) (o : Option ℤ) → is_some o ≡ true → get_or y o ≡ get_or z o
or_other y z none n = absurd (cc n)
or_other y z (some x) n = refl

module _ (conf : String → StorageConfig) where
  fill-HasBoth : (se : String) (s : Slots) → HasBoth s → HasBoth (fill conf se s)
  unfolding fill
  fill-HasBoth se s b j = ground (
    arith,
    b j,
    some_put se j (limit_or_default (conf se).inbound_max_active) s.left_for_destination,
    some_put se j (limit_or_default (conf se).outbound_max_active) s.left_for_source,
  )

  -- What is left for a storage, where the limit stands for one that is not filled in.
  abbrev pub value : Side → String → Slots → ℤ
  value side se s = get_or (limit_on side (conf se)) (find se (left_on side s))

  left_on-fill :
      (side : Side) (se : String) (s : Slots)
      → left_on side (fill conf se s) ≡ put se (limit_on side (conf se)) (left_on side s)
  unfolding fill
  left_on-fill into_storage se s = refl
  left_on-fill from_storage se s = refl

  value-fill :
      (side : Side) (se d : String) (s : Slots)
      → is_some (find se (left_on side s)) ≡ false
      → value side d (fill conf se s) ≡ value side d s
  value-fill side se d s n =
      rw (left_on-fill side se s, find-put se d (limit_on side (conf se)) (left_on side s))
        (elim (Bool-cases (se == d)) [
          | inl e ↦ rw e (
              rw
                (ap (λ d. get_or (limit_on side (conf d)) (find d (left_on side s)))
                  (sym ((str_beq_iff se d).0 e)))
                (sym (or_default _ _ n)))
          | inr e ↦ rw e refl
        ])

  -- The limits of a storage that one of the two maps lacks are filled in on both.
  fill_if : Bool → String → Slots → Slots
  fill_if b se s = if b then s else fill conf se s

  -- The two maps after both ends of a queue are filled in.
  abbrev pub filled_in : QueueId → Slots → Slots
  filled_in q s = fill_source conf q.source_se (fill_destination conf q.dest_se s)

  pub record IsFilledIn (s s' : Slots) : Type 0 where
    pub both : HasBoth s'
    pub same_value : (side : Side) (d : String) → value side d s' ≡ value side d s
    pub grows :
        (side : Side) (d : String)
        → is_some (find d (left_on side s)) ≡ true
        → is_some (find d (left_on side s')) ≡ true

  pub has_on :
      (side : Side) (s : Slots)
      → HasBoth s
      → (se : String) → is_some (find se (left_on side s)) ≡ is_some (find se s.left_for_source)
  has_on into_storage s b se = b se
  has_on from_storage s b se = refl

  filled_if :
      (se : String) (s : Slots) (b : Bool)
      → HasBoth s
      → is_some (find se s.left_for_source) ≡ b
      → IsFilledIn s (fill_if b se s) × (is_some (find se (fill_if b se s).left_for_source) ≡ true)
  unfolding fill_if
  filled_if se s true h e =
      (record { both = h; same_value = λ side d. refl; grows = λ side d k. k }, e)
  filled_if se s false h e = (
    record {
      both = fill-HasBoth se s h;
      same_value = λ side d. value-fill side se d s (has_on side s h se ∙ e);
      grows = λ side d k.
          ap (λ m. is_some (find d m)) (left_on-fill side se s)
          ∙ some_put se d (limit_on side (conf se)) (left_on side s)
          ∙ (ground (arith, k));
    },
    ap (λ m. is_some (find se m)) (left_on-fill from_storage se s)
        ∙ some_put se se (limit_on from_storage (conf se)) s.left_for_source
        ∙ (ground (arith, str_beq_iff se se)),
  )

  -- Filling in the ends of a queue leaves all values, and both ends have their limits.
  pub filled_in-IsFilledIn :
      (q : QueueId) (s : Slots)
      → HasBoth s
      → IsFilledIn s (filled_in q s)
        × ((side : Side) → is_some (find (queue_end side q) (left_on side (filled_in q s))) ≡ true)
  unfolding fill_source fill_destination fill_if
  filled_in-IsFilledIn q s b =
      let s₁ = fill_destination conf q.dest_se s in
      let (f, h) =
        filled_if q.dest_se s (is_some (find q.dest_se s.left_for_destination)) b
          (sym (b q.dest_se)) in
      let (f', h') =
        filled_if q.source_se s₁ (is_some (find q.source_se s₁.left_for_source)) f.both refl in
      (
        record {
          both = f'.both;
          same_value = λ side d. f'.same_value side d ∙ f.same_value side d;
          grows = λ side d k. f'.grows side d (f.grows side d k);
        },
        λ side. ends side f'.both (f'.grows into_storage q.dest_se (f.both q.dest_se ∙ h)) h',
      )
    where
      ends :
          (side : Side)
          → HasBoth (filled_in q s)
          → is_some (find q.dest_se (filled_in q s).left_for_destination) ≡ true
          → is_some (find q.source_se (filled_in q s).left_for_source) ≡ true
          → is_some (find (queue_end side q) (left_on side (filled_in q s))) ≡ true
      ends into_storage b h k = h
      ends from_storage b h k = k
