-- ===== src/Memmon/Executor/Batch.antt =====
-- The size of a soft eviction, batchFor of vpn/memmon/executor.go.
use radiance.Common.{min, ◌⊎◌, ◌≡◌, ℕ, ◌/◌, ◌≤◌, arith}
use radiance.Common.Int.{pos_part}
use radiance.Memmon.Executor.{ReactionConfig, batch_for, apply_defaults}

-- With the defaults applied, a batch is no larger than the live connections and the ceiling, is
-- positive when a connection is live, is at least the divisor's share of them unless the ceiling
-- binds, and exceeds that share only to reach one.
pub batch_for_bounds :
    (config : ReactionConfig) (available : ℕ)
    → let cfg = apply_defaults config in
      let n = batch_for cfg available in
      (n ≤ available)
      × (n ≤ pos_part cfg.soft_batch_max)
      × (min available 1 ≤ n)
      × ((n ≡ pos_part cfg.soft_batch_max) ⊎ (available / pos_part cfg.soft_divisor ≤ n))
      × ((n ≤ 1) ⊎ (n ≤ available / pos_part cfg.soft_divisor))
unfolding apply_defaults batch_for
batch_for_bounds config available = ground arith
