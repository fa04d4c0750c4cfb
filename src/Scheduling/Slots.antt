-- ===== src/Scheduling/Slots.antt =====
-- TransfersService.cpp: how many transfers each storage has left (`getFiles`, its first loop).
use fts.Common.{
  Bool, Dict, List, Option, String, [], false, find, get_or, if◌then◌else◌, lt_ℤ, none, pos, put,
  some, true, ℕ, ℤ, ◌-ℤ◌, ◌∷◌, string_key, nat_key,
}
use fts.Transfers.VoShares.{QueueId}

-- The limits of a storage (db/generic/StorageConfig.h).
pub record StorageConfig : Type 0 where
  pub inbound_max_active : ℤ
  pub outbound_max_active : ℤ

pub record Slots : Type 0 where
  pub left_for_destination : Dict String ℤ
  pub left_for_source : Dict String ℤ

abbrev pub is_some {ℓ} : {A : Type ℓ} → Option A → Bool
is_some none = false
is_some (some a) = true

abbrev pub limit_or_default : ℤ → ℤ
limit_or_default n = if lt_ℤ (pos 0) n then n else pos 60

module _ (get_storage_config : String → StorageConfig) where
  unfoldable pub fill : String → Slots → Slots
  fill se s = record {
    left_for_destination =
        put se (limit_or_default (get_storage_config se).inbound_max_active) s.left_for_destination;
    left_for_source =
        put se (limit_or_default (get_storage_config se).outbound_max_active) s.left_for_source;
  }

  unfoldable pub fill_destination : String → Slots → Slots
  unfolding fill
  fill_destination se s = if is_some (find se s.left_for_destination) then s else fill se s

  unfoldable pub fill_source : String → Slots → Slots
  unfolding fill
  fill_source se s = if is_some (find se s.left_for_source) then s else fill se s

-- `map[se] -= n`
abbrev pub take_slots : String → ℕ → Dict String ℤ → Dict String ℤ
take_slots se n m = put se (get_or (pos 0) (find se m) -ℤ pos n) m

module _ (get_storage_config : String → StorageConfig) where
  unfoldable pub add_queue : QueueId → Slots → Slots
  unfolding fill_destination fill_source
  add_queue q s =
      let s₁ =
        fill_source get_storage_config q.source_se
          (fill_destination get_storage_config q.dest_se s) in
      record {
        left_for_destination = take_slots q.dest_se q.active_count s₁.left_for_destination;
        left_for_source = take_slots q.source_se q.active_count s₁.left_for_source;
      }

  unfoldable pub add_queues : List QueueId → Slots → Slots
  unfolding add_queue
  add_queues [] s = s
  add_queues (q ∷ queues) s = add_queues queues (add_queue q s)

  unfoldable pub slots_for : List QueueId → Slots
  unfolding add_queues
  slots_for queues = add_queues queues (record { left_for_destination = []; left_for_source = [] })
