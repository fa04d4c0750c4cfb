-- ===== src/UrlCopy/Timeout.antt =====
-- `adjustTimeoutBasedOnSize` of url-copy/heuristics.cpp. The quotient is exact in a `double`, since the
-- divisor is a power of two and file sizes are below 2^53.
use fts.Common.{arith, if◌then◌else◌, ltb, ℕ, ◌*◌, ◌+◌, ◌-◌, ◌/◌, ◌<◌, ◌^◌, ◌↔◌, ◌≤◌}

abbrev pub mb : ℕ
mb = 2 ^ 20

unfoldable pub timeout_per_mb : ℕ → ℕ
timeout_per_mb add_sec_per_mb = if ltb 0 add_sec_per_mb then add_sec_per_mb else 2

abbrev pub ceil_div : ℕ → ℕ → ℕ
ceil_div a b = (a + (b - 1)) / b

-- The cast to `unsigned` is exact below 2^32; beyond, it is undefined.
unfoldable pub adjust_timeout_based_on_size : ℕ → ℕ → ℕ
unfolding timeout_per_mb
adjust_timeout_based_on_size size_in_bytes add_sec_per_mb =
    600 + ceil_div (timeout_per_mb add_sec_per_mb * size_in_bytes) mb

-- The timeout is 600 seconds and the least number of seconds that suffices at the time per MB.
pub adjust_timeout_least :
    (size add_sec t : ℕ)
    → (adjust_timeout_based_on_size size add_sec ≤ t)
      ↔ ((600 ≤ t) × (timeout_per_mb add_sec * size ≤ (t - 600) * mb))
unfolding adjust_timeout_based_on_size
adjust_timeout_least size add_sec t = (λ h. omega arith, λ h. omega arith)

timeout_per_mb_pos : (n : ℕ) → 0 < timeout_per_mb n
unfolding timeout_per_mb
timeout_per_mb_pos n = ground arith

-- A larger file never gets less time.
pub adjust_timeout_mono :
    (size size' add_sec : ℕ)
    → size ≤ size'
    → adjust_timeout_based_on_size size add_sec ≤ adjust_timeout_based_on_size size' add_sec
unfolding adjust_timeout_based_on_size
adjust_timeout_mono size size' add_sec h = grind arith
