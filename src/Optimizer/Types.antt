-- ===== src/Optimizer/Types.antt =====
-- The data of Optimizer.h, db/generic/Pair.h and LinkConfig.h.
use fts.Common.{
  Bool, Dict, Double, Key, List, String, [], arith, pos, str_beq_iff, true, ℕ, ℤ, ◌&&◌, ◌==◌, ◌↔◌,
  ◌≡◌, nat_key, string_key,
}
use fts.Uri.Lan.{is_lan_transfer}

pub record Pair : Type 0 where
  pub source : String
  pub destination : String

abbrev pub pair_beq : Pair → Pair → Bool
pair_beq a b = a.source == b.source && a.destination == b.destination

pub pair_beq_iff : (a b : Pair) → (pair_beq a b ≡ true) ↔ (a ≡ b)
pair_beq_iff a b =
    ground (arith, str_beq_iff a.source b.source, str_beq_iff a.destination b.destination)

instance abbrev pub pair_key : Key Pair
pair_key = record { same = pair_beq; same_iff = pair_beq_iff }

-- `Pair::isLanTransfer`
unfoldable pub is_lan_pair : Pair → Bool
is_lan_pair p = is_lan_transfer p.source p.destination

pub data OptimizerMode : Type 0 where
  optimizer_disabled optimizer_conservative optimizer_normal optimizer_aggressive : OptimizerMode

-- The numbers of the enumeration, by which the code compares modes.
abbrev pub mode_number : OptimizerMode → ℕ
mode_number optimizer_disabled = 0
mode_number optimizer_conservative = 1
mode_number optimizer_normal = 2
mode_number optimizer_aggressive = 3

pub record Range : Type 0 where
  pub min : ℤ
  pub max : ℤ
  pub specific : Bool
  pub storage_specific : Bool

pub record StorageLimits (F : Type 0) : Type 0 where
  pub source : ℤ
  pub destination : ℤ
  pub throughput_source : F
  pub throughput_destination : F

pub record PairState (F : Type 0) : Type 0 where
  pub timestamp : ℤ
  pub throughput : F
  pub avg_duration : ℤ
  pub success_rate : F
  pub retry_count : ℤ
  pub active_count : ℤ
  pub queue_size : ℤ
  pub ema : F
  pub filesize_avg : F
  pub filesize_std_dev : F
  pub connections : ℤ

-- What is written to the `rationale` stream: texts, and the values of doubles.
pub data Piece (F : Type 0) : Type 0 where
  text : String → Piece F
  value : F → Piece F

abbrev pub Rationale : Type 0 → Type 0
Rationale F = List (Piece F)

-- `OptimizerDataSource` and `OptimizerCallbacks`, over the state of the database that they read and
-- write. `time(NULL)` is read from the same state.
pub record DataSource (F W : Type 0) : Type 0 where
  pub time : W → ℤ
  pub get_active_pairs : W → List Pair
  pub get_optimizer_mode : W → String → String → OptimizerMode
  pub get_pair_limits : W → Pair → Range × StorageLimits F
  pub get_optimizer_value : W → Pair → ℤ
  pub get_throughput_info : W → Pair → ℕ → F × F × F
  pub get_average_duration : W → Pair → ℕ → ℤ
  pub get_success_rate : W → Pair → ℕ → F × ℤ
  pub get_active : W → Pair → ℤ
  pub get_submitted : W → Pair → ℤ
  pub get_throughput_as_source : W → String → F
  pub get_throughput_as_destination : W → String → F
  pub store_optimizer_decision : W → Pair → ℤ → PairState F → ℤ → Rationale F → W
  pub store_optimizer_streams : W → Pair → ℤ → W
  pub notify_decision : W → Pair → ℤ → PairState F → ℤ → Rationale F → W

pub record Optimizer (F : Type 0) : Type 0 where
  pub in_memory_store : Dict Pair (PairState F)
  pub has_callbacks : Bool
  pub steady_interval : ℤ  -- seconds
  pub max_number_of_streams : ℤ
  pub max_success_rate : ℤ
  pub low_success_rate : ℤ
  pub base_success_rate : ℤ
  pub decrease_step_size : ℤ
  pub increase_step_size : ℤ
  pub increase_aggressive_step_size : ℤ
  pub ema_alpha : F
  pub pairs_size : ℕ
  pub pair_idx : ℕ

module _ {F : Type 0} ⦃d : Double F⦄ where
  -- `PairState()`
  unfoldable pub new_pair_state : PairState F
  new_pair_state =
      let nought = d.of_int (pos 0) in
      record {
        timestamp = pos 0;
        throughput = nought;
        avg_duration = pos 0;
        success_rate = nought;
        retry_count = pos 0;
        active_count = pos 0;
        queue_size = pos 0;
        ema = nought;
        filesize_avg = nought;
        filesize_std_dev = nought;
        connections = pos 1;
      }

  -- The constructor; EMA_ALPHA is 0.1.
  unfoldable pub new_optimizer : Bool → Optimizer F
  new_optimizer callbacks = record {
    in_memory_store = [];
    has_callbacks = callbacks;
    steady_interval = pos 60;
    max_number_of_streams = pos 10;
    max_success_rate = pos 100;
    low_success_rate = pos 97;
    base_success_rate = pos 96;
    decrease_step_size = pos 1;
    increase_step_size = pos 1;
    increase_aggressive_step_size = pos 2;
    ema_alpha = d.div (d.of_int (pos 1)) (d.of_int (pos 10));
    pairs_size = 0;
    pair_idx = 0;
  }
