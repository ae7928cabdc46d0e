-- ===== src/Memmon/Engine.antt =====
-- vpn/memmon/decision_engine.go, and Config with its defaults of vpn/memmon/monitor.go.
-- A method of *DecisionEngine takes the engine and returns it beside its result. Counters of ticks
-- are unbounded: an int counts one tick at a time.
pub mod Frame
pub mod Levels
pub mod Reclaim
pub mod Dumps
pub mod Ring
use radiance.Common.{
  ℕ, ◌+◌, ◌*◌, Bool, true, false, not, ◌&&◌, ◌||◌, none, some, List, [], ◌∷◌, ◌++◌, if◌then◌else◌,
  ltb, ◌==◌, length, drop,
}
use radiance.Common.Int.{ℤ, pos, leb_ℤ, ltb_ℤ}
use radiance.Memmon.Float.{FloatOps}
use radiance.Memmon.Types.{
  PressureLevel, normal, soft, hard, rank, Sample, LevelChange, Snapshot, Decision, sub_time,
  second, millisecond, pressure_ratio, reason_normal, reason_soft_enter, reason_soft_hold,
  reason_soft_exit, reason_hard_enter, reason_hard_predicted, reason_hard_hold,
}
use Prim.Native.String.{String}

abbrev pub predict_min_ticks : ℕ
predict_min_ticks = 2

abbrev pub ring_len : ℕ
ring_len = 8

abbrev pub settle_window : ℕ
settle_window = 2 * second

abbrev pub hard_cooldown : ℕ
hard_cooldown = 2 * second

abbrev pub hard_predicted_interval : ℤ
hard_predicted_interval = pos (100 * millisecond)

abbrev pub soft_interval : ℤ
soft_interval = pos (500 * millisecond)

-- LimitProvider is left out: the engine does not read it.
pub record Config (F : Type 0) : Type 0 where
  pub go_mem_limit : ℕ
  pub base_interval : ℤ
  pub predict_horizon : ℤ
  pub soft_enter : F
  pub hard_enter : F
  pub soft_exit : F
  pub hard_exit : F
  pub dwell_samples : ℤ

pub record Engine (F : Type 0) : Type 0 where
  pub cfg : Config F
  pub level : PressureLevel
  pub slope : F
  pub prev_p : F
  pub prev_at : ℕ
  pub have_prev : Bool
  pub rising_ticks : ℕ
  pub down_dwell : ℕ
  pub settle_until : ℕ
  pub last_hard_fire : ℕ
  pub have_hard_fire : Bool
  pub dumped_this_episode : Bool
  pub ring : List Sample
  pub levels : List LevelChange

-- What one tick does besides moving the level.
pub record Reaction (F : Type 0) : Type 0 where
  pub evict : Bool
  pub close_all : Bool
  pub engine : Engine F

-- copy(dst, dst[1:]) and the write of the last cell, or append.
unfoldable pub bounded_append {ℓ} : {A : Type ℓ} → List A → A → ℕ → List A
bounded_append dst v limit = if length dst == limit then drop 1 dst ++ v ∷ [] else dst ++ v ∷ []

unfoldable pub reason_for : PressureLevel → PressureLevel → Bool → String
reason_for normal normal predicted = reason_normal
reason_for soft soft predicted = reason_soft_hold
reason_for hard hard predicted = reason_hard_hold
reason_for from normal predicted = reason_soft_exit
reason_for from soft predicted = reason_soft_enter
reason_for from hard predicted = if predicted then reason_hard_predicted else reason_hard_enter

abbrev pub level_eq : PressureLevel → PressureLevel → Bool
level_eq a b = rank a == rank b

module _ {F : Type 0} where
  unfoldable pub advance_down : Engine F → Bool × Engine F
  advance_down c =
      let c1 = record c { down_dwell = c.down_dwell + 1 } in
      if leb_ℤ c.cfg.dwell_samples (pos c1.down_dwell)
      then (true, record c1 { down_dwell = 0 })
      else (false, c1)

  abbrev pub clear_dwell : Engine F → Engine F
  clear_dwell c = record c { down_dwell = 0 }

  unfoldable pub hard_reclaim : Engine F → ℕ → Bool × Engine F
  hard_reclaim c at =
      let fired = record c { last_hard_fire = at; have_hard_fire = true } in
      if not (level_eq c.level hard)
      then (true, fired)
      else if c.have_hard_fire && ltb_ℤ (sub_time at c.last_hard_fire) (pos hard_cooldown)
      then (false, c)
      else (true, fired)

  unfoldable pub should_dump : Engine F → PressureLevel → Bool × Engine F
  should_dump c next =
      if not (level_eq next hard) || c.dumped_this_episode
      then (false, c)
      else (true, record c { dumped_this_episode = true })

  unfoldable pub reset_episode : Engine F → Engine F
  reset_episode c = record c { dumped_this_episode = false; have_hard_fire = false }

  unfoldable pub interval_for : Engine F → PressureLevel → Bool → ℤ
  interval_for c level predicted =
      if level_eq level hard || predicted
      then hard_predicted_interval
      else if level_eq level soft
      then soft_interval
      else c.cfg.base_interval

  unfoldable pub push_ring : Engine F → Sample → Engine F
  unfolding bounded_append
  push_ring c s = record c { ring = bounded_append c.ring s ring_len }

  unfoldable pub push_level : Engine F → LevelChange → Engine F
  unfolding bounded_append
  push_level c l = record c { levels = bounded_append c.levels l ring_len }

  unfoldable pub snapshot : Engine F → Snapshot
  snapshot c = record { samples = c.ring; levels = c.levels }

  -- The `switch next` of Decide.
  unfoldable pub react : Engine F → PressureLevel → ℕ → Bool → Bool → Reaction F
  unfolding hard_reclaim
  react c normal at in_settle falling = record { evict = false; close_all = false; engine = c }
  react c soft at in_settle falling =
      if not in_settle && not falling
      then record {
        evict = true;
        close_all = false;
        engine = record c { settle_until = at + settle_window };
      }
      else record { evict = false; close_all = false; engine = c }
  react c hard at in_settle falling =
      let (fire, c1) = hard_reclaim c at in
      record {
        evict = false;
        close_all = fire;
        engine = if fire then record c1 { settle_until = at + settle_window } else c1;
      }

module _ {F : Type 0} ⦃o : FloatOps F⦄ where
  abbrev pub ewma_alpha : F
  ewma_alpha = o.hundredths 30

  abbrev pub slope_rise_eps : F
  slope_rise_eps = o.thousandths 2

  unfoldable pub apply_defaults : Config F → Config F
  apply_defaults c = record {
    go_mem_limit = c.go_mem_limit;
    base_interval = if leb_ℤ c.base_interval (pos 0) then pos second else c.base_interval;
    predict_horizon =
        if leb_ℤ c.predict_horizon (pos 0) then pos (5 * second) else c.predict_horizon;
    soft_enter = if o.eq c.soft_enter (o.of_nat 0) then o.hundredths 88 else c.soft_enter;
    hard_enter = if o.eq c.hard_enter (o.of_nat 0) then o.hundredths 92 else c.hard_enter;
    soft_exit = if o.eq c.soft_exit (o.of_nat 0) then o.hundredths 80 else c.soft_exit;
    hard_exit = if o.eq c.hard_exit (o.of_nat 0) then o.hundredths 85 else c.hard_exit;
    dwell_samples = if leb_ℤ c.dwell_samples (pos 0) then pos 3 else c.dwell_samples;
  }

  unfoldable pub new_engine : Config F → Engine F
  unfolding apply_defaults
  new_engine cfg = record {
    cfg = apply_defaults cfg;
    level = normal;
    slope = o.of_nat 0;
    prev_p = o.of_nat 0;
    prev_at = 0;
    have_prev = false;
    rising_ticks = 0;
    down_dwell = 0;
    settle_until = 0;
    last_hard_fire = 0;
    have_hard_fire = false;
    dumped_this_episode = false;
    ring = [];
    levels = [];
  }

  -- The slope after the reading `p`: unchanged on the first tick and on a clock that stands still.
  unfoldable pub new_slope : Engine F → F → ℕ → F
  new_slope c p at =
      let dt = o.seconds (sub_time at c.prev_at) in
      let inst = o.div (o.sub p c.prev_p) dt in
      if c.have_prev && o.lt (o.of_nat 0) dt
      then o.add (o.mul ewma_alpha inst) (o.mul (o.sub (o.of_nat 1) ewma_alpha) c.slope)
      else c.slope

  unfoldable pub update_slope : Engine F → F → ℕ → Engine F
  unfolding new_slope
  update_slope c p at = record c {
    slope = new_slope c p at;
    rising_ticks = if o.lt slope_rise_eps (new_slope c p at) then c.rising_ticks + 1 else 0;
    prev_p = p;
    prev_at = at;
    have_prev = true;
  }

  unfoldable pub effective_soft_enter : Engine F → ℕ → F
  effective_soft_enter c cap =
      let clamp = o.div (o.of_nat c.cfg.go_mem_limit) (o.of_nat cap) in
      if ltb 0 c.cfg.go_mem_limit && ltb 0 cap && o.lt c.cfg.soft_enter clamp
      then o.min_of clamp c.cfg.hard_enter
      else c.cfg.soft_enter

  unfoldable pub predicts_cliff : Engine F → F → Bool
  predicts_cliff c p =
      if ltb (rank c.level) (rank soft)
        || ltb c.rising_ticks predict_min_ticks
        || o.le c.slope slope_rise_eps
      then false
      else o.lt (o.div (o.sub (o.of_nat 1) p) c.slope) (o.seconds c.cfg.predict_horizon)

  -- Whether the Soft case moves on to Hard.
  unfoldable pub escalates : Engine F → F → Bool → Bool → Bool → Bool
  escalates c p predicted in_settle rising =
      if in_settle && not rising then false else o.le c.cfg.hard_enter p || predicted

  -- `switch c.level`, one clause for each level.
  unfoldable pub next_from :
      PressureLevel → Engine F → F → F → Bool → Bool → Bool → PressureLevel × Engine F
  unfolding escalates advance_down
  next_from normal c p soft_enter predicted in_settle rising =
      if o.le soft_enter p then (soft, clear_dwell c) else (c.level, c)
  next_from soft c p soft_enter predicted in_settle rising =
      if escalates c p predicted in_settle rising
      then (hard, clear_dwell c)
      else if o.le p c.cfg.soft_exit
      then (let (down, c1) = advance_down c in if down then (normal, c1) else (c.level, c1))
      else (c.level, clear_dwell c)
  next_from hard c p soft_enter predicted in_settle rising =
      if o.le p c.cfg.hard_exit
      then (let (down, c1) = advance_down c in if down then (soft, c1) else (c.level, c1))
      else (c.level, clear_dwell c)

  unfoldable pub next_level : Engine F → F → F → Bool → Bool → Bool → PressureLevel × Engine F
  unfolding next_from
  next_level c p soft_enter predicted in_settle rising =
      next_from c.level c p soft_enter predicted in_settle rising

  -- Decide up to the new level: slope, ring, prediction, level.
  unfoldable pub assess : Engine F → Sample → PressureLevel × Engine F
  assess c s =
      let p = pressure_ratio s in
      let c1 = push_ring (update_slope c p s.timestamp) s in
      next_level c1 p (effective_soft_enter c1 s.cap) (predicts_cliff c1 p)
        (ltb s.timestamp c1.settle_until) (o.lt slope_rise_eps c1.slope)

  -- Decide after the new level: reclaim flags, reason, dump, cadence, end of the episode.
  unfoldable pub conclude :
      PressureLevel
      → Engine F
      → PressureLevel
      → Sample
      → F
      → Bool
      → Bool
      → Bool
      → Engine F × Decision F
  unfolding react reason_for push_level should_dump snapshot interval_for reset_episode
  conclude from c next s p predicted in_settle falling =
      let r = react c next s.timestamp in_settle falling in
      let is_predicted = predicted && level_eq next hard in
      let reason = reason_for from next is_predicted in
      let c2 =
        if not (level_eq next from)
        then push_level r.engine
            (record { timestamp = s.timestamp; from = from; to = next; reason = reason })
        else r.engine in
      let (dump, c3) = should_dump c2 next in
      let c4 = if level_eq next normal then reset_episode c3 else c3 in
      (
        record c4 { level = next },
        record {
          level = next;
          footprint = s.footprint;
          pressure_ratio = p;
          evict_oldest_batch = r.evict;
          close_all_connections = r.close_all;
          next_interval = interval_for c3 next predicted;
          write_dump = dump;
          snapshot = if dump then some (snapshot c3) else none;
          is_predicted = is_predicted;
          reason = reason;
        },
      )

  unfoldable pub decide : Engine F → Sample → Engine F × Decision F
  unfolding assess conclude
  decide c s =
      let p = pressure_ratio s in
      let c1 = push_ring (update_slope c p s.timestamp) s in
      let (next, c2) = assess c s in
      conclude c.level c2 next s p (predicts_cliff c1 p) (ltb s.timestamp c1.settle_until)
        (o.lt c1.slope (o.neg slope_rise_eps))

  -- The engine after a stream of samples, and its decisions in order.
  unfoldable pub run : Engine F → List Sample → Engine F × List (Decision F)
  run c [] = (c, [])
  run c (s ∷ ss) = let (c', d) = decide c s in let (end, ds) = run c' ss in (end, d ∷ ds)
