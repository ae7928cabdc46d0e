-- ===== src/Memmon/Tests.antt =====
-- The theorems on vpn/memmon at concrete readings, and runs of the code.
use radiance.Common.{ℕ, ◌+◌, ◌*◌, ◌≤◌, ◌≡◌, refl, arith, true, false, some, List, [], ◌∷◌, map}
use radiance.Common.Int.{ℤ, pos, ◌+ℤ◌, ◌-ℤ◌}
use radiance.Memmon.Types.{PressureLevel, normal, soft, hard, Sample, Decision, second}
use radiance.Memmon.Fixed.{milli}
use radiance.Memmon.Engine.{Engine, Config, decide, run, new_engine}
use radiance.Memmon.Engine.{
  next_level, push_ring, update_slope, effective_soft_enter, predicts_cliff,
}
use radiance.Memmon.Types.{pressure_ratio}
use radiance.Memmon.Engine.Levels.{Adjacent, decide-Adjacent, run-hard_dwell}
use radiance.Memmon.Engine.Dumps.{run-dumps_le, dumps}
use radiance.Memmon.Gate.{
  Gate, AdmissionConfig, Part, counts, latches, arms, lifts, interleave, new_gate,
}
use radiance.Memmon.Gate.Latch.{Alternates, interleave-calls_alternate}
use radiance.Memmon.Executor.{ReactionConfig, World}
use radiance.Memmon.Executor.Effects.{apply-obeys, apply_all, apply_all-written_le, written}
use radiance.Memmon.Executor.Effects

-- A reading of `footprint` bytes of 1000 at the instant `at`.
abbrev reading : ℕ → ℕ → Sample
reading at footprint = record {
  footprint = footprint;
  cap = 1000;
  go_bytes = 0;
  available = 0;
  has_native_footprint = true;
  go_stats = record {
    total_sys = 0;
    heap_objects = 0;
    heap_released = 0;
    stacks = 0;
    goroutines = 0;
    num_gc = 0;
  };
  timestamp = at;
}

abbrev defaults : Config ℤ
defaults = record {
  go_mem_limit = 0;
  base_interval = pos 0;
  predict_horizon = pos 0;
  soft_enter = pos 0;
  hard_enter = pos 0;
  soft_exit = pos 0;
  hard_exit = pos 0;
  dwell_samples = pos 0;
}

-- Readings at seconds 1, 2, ... : into Soft, into Hard, and down again.
abbrev climb : List Sample
climb =
    reading (10 * second) 500
    ∷ reading (11 * second) 890
    ∷ reading (12 * second) 950
    ∷ reading (13 * second) 960
    ∷ reading (14 * second) 970
    ∷ []

levels_of : List (Decision ℤ) → List PressureLevel
levels_of = map λ d. d.level

climb_levels :
    levels_of (run (new_engine defaults) climb).1 ≡ normal ∷ soft ∷ hard ∷ hard ∷ hard ∷ []
unfolding levels_of run new_engine decide ◌+ℤ◌ ◌-ℤ◌ next_level push_ring update_slope
    effective_soft_enter predicts_cliff pressure_ratio
climb_levels = refl

-- An engine at the level given, settling until second 13, whose last reading was 0.9 at second 11.
abbrev engine_at : PressureLevel → Engine ℤ
engine_at level = record {
  cfg = record {
    go_mem_limit = 0;
    base_interval = pos second;
    predict_horizon = pos (5 * second);
    soft_enter = pos 880;
    hard_enter = pos 920;
    soft_exit = pos 800;
    hard_exit = pos 850;
    dwell_samples = pos 3;
  };
  level = level;
  slope = pos 0;
  prev_p = pos 900;
  prev_at = 11 * second;
  have_prev = true;
  rising_ticks = 0;
  down_dwell = 0;
  settle_until = 13 * second;
  last_hard_fire = 11 * second;
  have_hard_fire = true;
  dumped_this_episode = false;
  ring = [];
  levels = [];
}

decide-Adjacent_example :
    Adjacent soft (decide (engine_at soft) (reading (14 * second) 950)).1.level
decide-Adjacent_example = (decide-Adjacent (engine_at soft) (reading (14 * second) 950)).1

run-hard_dwell_example :
    (run (engine_at hard) (reading (12 * second) 100 ∷ reading (13 * second) 100 ∷ [])).0.level
    ≡ hard
run-hard_dwell_example =
    run-hard_dwell (engine_at hard) (reading (12 * second) 100 ∷ reading (13 * second) 100 ∷ []) 3
      refl refl (omega arith)

run-dumps_le_example :
    dumps (run (engine_at hard) (reading (14 * second) 950 ∷ reading (15 * second) 960 ∷ [])).1 ≤ 1
unfolding run new_engine decide ◌+ℤ◌ ◌-ℤ◌ next_level push_ring update_slope effective_soft_enter
    predicts_cliff pressure_ratio
run-dumps_le_example =
    (run-dumps_le (engine_at hard) (reading (14 * second) 950 ∷ reading (15 * second) 960 ∷ [])
      (λ e. cc, (λ e. cc, tt)))

abbrev admission : AdmissionConfig ℤ
admission = record {
  start_rejecting_pressure = pos 0;
  stop_rejecting_pressure = pos 0;
  sample_cache_ttl = pos 0;
  max_reject_duration = pos 0;
  burst_dial_threshold = pos 2;
  burst_dial_window = pos 0;
}

-- 2000 years after the zero time, as the gate reads the clock.
abbrev late : ℕ
late = 730000 * 86400 * second

abbrev sampler : ℕ → Sample
sampler at = reading at 950

abbrev parts : List (Part ℤ)
parts =
    counts late
    ∷ arms hard
    ∷ latches late
    ∷ lifts (pos 500) (late + second)
    ∷ latches (late + second)
    ∷ []

interleave-calls_alternate_example :
    Alternates true (interleave sampler (new_gate admission) parts).calls
unfolding interleave new_gate ◌-ℤ◌ ◌+ℤ◌ pressure_ratio
interleave-calls_alternate_example = interleave-calls_alternate sampler admission parts

abbrev armed_gate : Gate ℤ
armed_gate = record {
  cfg = record {
    start_rejecting_pressure = pos 920;
    stop_rejecting_pressure = pos 850;
    sample_cache_ttl = pos 75_000_000;
    max_reject_duration = pos (10 * second);
    burst_dial_threshold = pos 2;
    burst_dial_window = pos 250_000_000;
  };
  armed = true;
  conn_count = 0;
  win_start = pos 5;
  cached = reading 0 0;
  cached_at = 0;
  have_cached = false;
  rejecting = false;
  reject_since = 0;
  calls = [];
  reads = [];
}

abbrev epoch : ℕ
epoch = 719162 * 86400 * second

abbrev no_limits : ReactionConfig
no_limits = record { soft_divisor = pos 0; soft_batch_max = pos 0; free_os_min_interval = pos 0 }

abbrev two_conns : World
two_conns = record {
  connections_oldest_first =
      record { id = 7; created_at = 1 } ∷ record { id = 8; created_at = 2 } ∷ [];
  open_connection_count = 2;
  total_dialed_connections = 3;
  dump_write_ok = true;
}

abbrev hard_decision : Decision ℤ
hard_decision = record {
  level = hard;
  footprint = 950;
  pressure_ratio = pos 950;
  evict_oldest_batch = false;
  close_all_connections = true;
  next_interval = pos 100_000_000;
  write_dump = true;
  snapshot = some (record { samples = []; levels = [] });
  is_predicted = false;
  reason = "hard_enter";
}

abbrev hard_ticks : List (Effects.Tick ℤ)
hard_ticks =
    record { world = two_conns; decision = hard_decision; now = late }
    ∷ record { world = two_conns; decision = hard_decision; now = late + second }
    ∷ []
