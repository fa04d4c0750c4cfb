-- ===== src/Scheduling/Budget.antt =====
-- What `getFiles` has left for a storage after its queues.
use fts.Common.{
  +ℤ_parts, Bool-cases, Dict, List, Option, String, [], ap, arith, find, find-put, get_or,
  if◌then◌else◌, inl, inr, int_laws, neg_part, negsuc, none, pos, pos_part, refl, some, str_beq_iff,
  sym, true, ℕ, ℤ, ◌+ℤ◌, ◌+◌, ◌-ℤ◌, ◌-◌, ◌==◌, ◌∙◌, ◌∷◌, ◌≡◌, ◌≤◌, ◌⊎◌, string_key, nat_key,
}
use fts.Scheduling.Limits.{
  HasBoth, Side, active_on, filled_in, filled_in-IsFilledIn, from_storage, into_storage, left_on,
  limit_on, or_other, queue_end, some_put, value,
}
use fts.Scheduling.Serve.{left_for, proxy_key}
use fts.Scheduling.Slots.{
  Slots, StorageConfig, add_queue, add_queues, is_some, slots_for, take_slots,
}
use fts.Transfers.VoShares.{QueueId}

sub_add : (z : ℤ) (n : ℕ) → z -ℤ pos n +ℤ pos n ≡ z
sub_add z n = omega int_laws

add_none : (z : ℤ) → z +ℤ pos 0 ≡ z
add_none z = omega int_laws

regroup : (x : ℤ) (n m : ℕ) → x +ℤ pos (n + m) ≡ x +ℤ pos m +ℤ pos n
regroup x n m = omega int_laws

two_steps : (x y z : ℤ) (n m : ℕ) → x +ℤ pos m ≡ y → y +ℤ pos n ≡ z → x +ℤ pos (n + m) ≡ z
two_steps x y z n m h k = regroup x n m ∙ ap (λ y. y +ℤ pos n) h ∙ k

-- `map[k] -= n` for a storage of the map.
pub left_taken :
    (z : ℤ) (k d : String) (n : ℕ) (m : Dict String ℤ)
    → is_some (find k m) ≡ true
    → get_or z (find d (take_slots k n m)) +ℤ pos (if k == d then n else 0) ≡ get_or z (find d m)
left_taken z k d n m h = elim (Bool-cases (k == d)) [
  | inl e ↦ rw (find-put k d (get_or (pos 0) (find k m) -ℤ pos n) m) (
      rw (e, or_other (pos 0) z (find k m) h, (str_beq_iff k d).0 e)
        (sub_add (get_or z (find d m)) n))
  | inr e ↦
      rw (find-put k d (get_or (pos 0) (find k m) -ℤ pos n) m)
        (rw e (add_none (get_or z (find d m))))
]

some_taken :
    (k j : String) (n : ℕ) (m : Dict String ℤ)
    → is_some (find k m) ≡ true
    → is_some (find j (take_slots k n m)) ≡ is_some (find j m)
some_taken k j n m h =
    some_put k j (get_or (pos 0) (find k m) -ℤ pos n) m ∙ ground (arith, h, str_beq_iff k j)

one_sign : (z : ℤ) → (pos_part z ≡ 0) ⊎ (neg_part z ≡ 0)
one_sign (pos n) = inr refl
one_sign (negsuc n) = inl refl

limit_pos : (side : Side) (c : StorageConfig) → neg_part (limit_on side c) ≡ 0
limit_pos into_storage c = ground arith
limit_pos from_storage c = ground arith

within : (z l : ℤ) (n : ℕ) → neg_part l ≡ 0 → z +ℤ pos n ≡ l → pos_part z ≤ pos_part l - n
within z l n p e =
    let f = ap pos_part e in
    let g = ap neg_part e in omega (arith, f, g, p, +ℤ_parts z (pos n), one_sign z, one_sign l)

module _ (conf : String → StorageConfig) where
  left_on-add_queue :
      (side : Side) (q : QueueId) (s : Slots)
      → left_on side (add_queue conf q s)
        ≡ take_slots (queue_end side q) q.active_count (left_on side (filled_in conf q s))
  unfolding add_queue
  left_on-add_queue into_storage q s = refl
  left_on-add_queue from_storage q s = refl

  add_queue-HasBoth : (q : QueueId) (s : Slots) → HasBoth s → HasBoth (add_queue conf q s)
  add_queue-HasBoth q s b se =
      let (f, ends) = filled_in-IsFilledIn conf q s b in
      ap (λ m. is_some (find se m)) (left_on-add_queue into_storage q s)
      ∙ some_taken q.dest_se se q.active_count _ (ends into_storage)
      ∙ f.both se
      ∙ sym (some_taken q.source_se se q.active_count _ (ends from_storage))
      ∙ sym (ap (λ m. is_some (find se m)) (left_on-add_queue from_storage q s))

  value-add_queue :
      (side : Side) (d : String) (q : QueueId) (s : Slots)
      → HasBoth s
      → value conf side d (add_queue conf q s)
          +ℤ pos (if queue_end side q == d then q.active_count else 0)
        ≡ value conf side d s
  value-add_queue side d q s b =
      let (f, ends) = filled_in-IsFilledIn conf q s b in
      rw (left_on-add_queue side q s) (
        left_taken (limit_on side (conf d)) (queue_end side q) d q.active_count _ (ends side)
        ∙ f.same_value side d)

  value-add_queues :
      (side : Side) (d : String) (queues : List QueueId) (s : Slots)
      → HasBoth s
      → value conf side d (add_queues conf queues s) +ℤ pos (active_on side d queues)
        ≡ value conf side d s
  unfolding add_queues active_on
  value-add_queues side d [] s b = add_none (value conf side d s)
  value-add_queues side d (q ∷ queues) s b =
      two_steps _ (value conf side d (add_queue conf q s)) _ _ _
        (value-add_queues side d queues (add_queue conf q s) (add_queue-HasBoth q s b))
        (value-add_queue side d q s b)

  abbrev no_slots : Slots
  no_slots = record { left_for_destination = []; left_for_source = [] }

  empty_value : (side : Side) (d : String) → value conf side d no_slots ≡ limit_on side (conf d)
  unfolding find
  empty_value into_storage d = refl
  empty_value from_storage d = refl

  -- What is left and what is active make up the limit.
  pub value-slots_for :
      (side : Side) (d : String) (queues : List QueueId)
      → value conf side d (slots_for conf queues) +ℤ pos (active_on side d queues)
        ≡ limit_on side (conf d)
  unfolding slots_for find
  value-slots_for side d queues =
      value-add_queues side d queues no_slots (λ se. refl) ∙ empty_value side d

  -- No more than the limit less what is active.
  pub left_for_slots :
      (side : Side) (d : String) (queues : List QueueId)
      → pos_part (left_for d (left_on side (slots_for conf queues)))
        ≤ pos_part (limit_on side (conf d)) - active_on side d queues
  left_for_slots side d queues = by_entry (find d (left_on side (slots_for conf queues))) refl
    where
      by_entry :
          (o : Option ℤ)
          → find d (left_on side (slots_for conf queues)) ≡ o
          → pos_part (left_for d (left_on side (slots_for conf queues)))
            ≤ pos_part (limit_on side (conf d)) - active_on side d queues
      by_entry none e = rw e (omega arith)
      by_entry (some z) e = rw e (
          within z _ _ (limit_pos side (conf d)) (
            ap (λ o. get_or (limit_on side (conf d)) o +ℤ pos (active_on side d queues)) (sym e)
            ∙ value-slots_for side d queues))
