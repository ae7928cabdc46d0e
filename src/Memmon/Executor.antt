-- ===== src/Memmon/Executor.antt =====
-- vpn/memmon/executor.go, with reactionConfig of vpn/memmon/config.go and the Reclaimer interface of
-- vpn/memmon/reclaimer.go. What the executor does to its Reclaimer and to the dump writer is the
-- list of effects that a method returns, in order; what it reads from them is an argument.
pub mod Batch
pub mod Effects
use radiance.Common.{
  ℕ, ◌*◌, ◌/◌, Bool, true, false, not, ◌&&◌, ◌||◌, Option, none, some, List, [], ◌∷◌, ◌++◌, map,
  if◌then◌else◌, leb, ltb, ◌==◌, length, take, min, max,
}
use radiance.Common.Int.{ℤ, pos, pos_part, leb_ℤ, ltb_ℤ}
use radiance.Memmon.Float.{FloatOps}
use radiance.Memmon.Types.{
  PressureLevel, normal, soft, hard, rank, Decision, Snapshot, sub_time, second,
}
use radiance.Memmon.Engine.{level_eq}
use radiance.Memmon.Gate.{Gate, observe}

pub record ReactionConfig : Type 0 where
  pub soft_divisor : ℤ
  pub soft_batch_max : ℤ
  pub free_os_min_interval : ℤ

pub record ConnectionRef : Type 0 where
  pub id : ℕ
  pub created_at : ℕ

-- What the Reclaimer answers during one Apply, and whether a dump can be written.
pub record World : Type 0 where
  pub connections_oldest_first : List ConnectionRef
  pub open_connection_count : ℕ
  pub total_dialed_connections : ℕ
  pub dump_write_ok : Bool

pub data Effect : Type 0 where
  write_dump : ℕ → ℕ → Effect
  close_conn : ℕ → Effect
  close_all_connections : Effect
  free_os_memory : Effect

pub record Executor (F : Type 0) : Type 0 where
  pub has_dump : Bool
  pub gate : Option (Gate F)
  pub cfg : ReactionConfig
  pub last_level : PressureLevel
  pub dumped : Bool
  pub last_free_os : ℕ

unfoldable pub apply_defaults : ReactionConfig → ReactionConfig
apply_defaults c = record {
  soft_divisor = if leb_ℤ c.soft_divisor (pos 0) then pos 4 else c.soft_divisor;
  soft_batch_max = if leb_ℤ c.soft_batch_max (pos 0) then pos 16 else c.soft_batch_max;
  free_os_min_interval =
      if leb_ℤ c.free_os_min_interval (pos 0) then pos (3 * second) else c.free_os_min_interval;
}

-- The divisor and the ceiling are positive once the defaults are applied, so their positive parts
-- are their values.
unfoldable pub batch_for : ReactionConfig → ℕ → ℕ
batch_for cfg available =
    if available == 0
    then 0
    else min (min (max (available / pos_part cfg.soft_divisor) 1) available)
        (pos_part cfg.soft_batch_max)

abbrev is_none {ℓ} : {A : Type ℓ} → Option A → Bool
is_none none = true
is_none (some a) = false

module _ {F : Type 0} where
  unfoldable pub new_executor : Bool → Option (Gate F) → ReactionConfig → Executor F
  unfolding apply_defaults
  new_executor has_dump gate config = record {
    has_dump = has_dump;
    gate = gate;
    cfg = apply_defaults config;
    last_level = normal;
    dumped = false;
    last_free_os = 0;
  }

  unfoldable pub free_os_memory_now : Executor F → ℕ → Executor F × List Effect
  free_os_memory_now e now = (record e { last_free_os = now }, free_os_memory ∷ [])

  unfoldable pub free_os_memory_rate_limited : Executor F → ℕ → Executor F × List Effect
  unfolding free_os_memory_now
  free_os_memory_rate_limited e now =
      if ltb_ℤ (sub_time now e.last_free_os) e.cfg.free_os_min_interval
      then (e, [])
      else free_os_memory_now e now

  unfoldable pub soft_evict : Executor F → World → List Effect
  soft_evict e w =
      map (λ (c : ConnectionRef). close_conn c.id)
        (take (batch_for e.cfg (length w.connections_oldest_first)) w.connections_oldest_first)

  unfoldable pub maybe_dump : Executor F → World → Decision F → Executor F × List Effect
  maybe_dump e w decision =
      if e.dumped || not e.has_dump || is_none decision.snapshot then (e, []) else (
        if w.dump_write_ok then record e { dumped = true } else e,
        write_dump w.open_connection_count w.total_dialed_connections ∷ [],
      )

  -- The `switch` of Apply.
  unfoldable pub reclaim : Executor F → World → Decision F → ℕ → Executor F × List Effect
  unfolding free_os_memory_now free_os_memory_rate_limited soft_evict
  reclaim e w decision now =
      if decision.close_all_connections
      then (let (e1, free) = free_os_memory_now e now in (e1, close_all_connections ∷ free))
      else if level_eq decision.level soft && decision.evict_oldest_batch
      then (let (e1, free) = free_os_memory_rate_limited e now in (e1, soft_evict e w ++ free))
      else (e, [])

  -- The level bookkeeping of Apply: the dump is armed again once the level recedes out of Hard.
  unfoldable pub track_level : Executor F → PressureLevel → Executor F
  track_level e level = if level_eq level e.last_level then e else record e {
    dumped = if leb (rank level) (rank soft) then false else e.dumped;
    last_level = level;
  }

module _ {F : Type 0} ⦃o : FloatOps F⦄ where
  abbrev observe_gate : Option (Gate F) → Decision F → ℕ → Option (Gate F)
  observe_gate none d now = none
  observe_gate (some g) d now = some (observe g d.level d.pressure_ratio now)

  unfoldable pub apply : Executor F → World → Decision F → ℕ → Executor F × List Effect
  unfolding maybe_dump reclaim track_level
  apply e w decision now =
      let (e1, dump) = if decision.write_dump then maybe_dump e w decision else (e, []) in
      let (e2, acts) = reclaim e1 w decision now in
      let e3 = track_level e2 decision.level in
      (record e3 { gate = observe_gate e3.gate decision now }, dump ++ acts)
