-- ===== src/Memmon/Monitor.antt =====
-- vpn/memmon/monitor.go: one cycle of the loop, and the delay to the next. The ticks of the timer
-- are an argument, as is what the sensor and the reclaimer answer at each.
use radiance.Common.{
  ◌≢◌, ℕ, ◌*◌, ◌≡◌, refl, ap, ◌∙◌, Bool, ◌||◌, Option, none, some, List, [], ◌∷◌, ◌⊎◌, arith,
  if◌then◌else◌, ◌==◌,
}
use radiance.Common.Int.{ℤ, pos, leb_ℤ, ◌≤ℤ◌}
use radiance.Memmon.Float.{FloatOps}
use radiance.Memmon.Types.{PressureLevel, normal, hard, Sample, Decision, sub_time, second}
use radiance.Memmon.Engine.{Engine, Config, decide, new_engine, level_eq}
use radiance.Memmon.Engine.Frame.{decide-cfg, assess-same}
use radiance.Memmon.Executor.{Executor, World, Effect, apply}

-- A nil executor is `none`.
pub record Monitor (F : Type 0) : Type 0 where
  pub engine : Engine F
  pub executor : Option (Executor F)
  pub base_interval : ℤ
  pub last_level : PressureLevel
  pub last_tick_log : ℕ

pub record Tick : Type 0 where
  pub sample : Sample
  pub world : World
  pub now : ℕ

module _ {F : Type 0} where
  unfoldable pub should_log_tick : Monitor F → ℕ → PressureLevel → Bool
  should_log_tick m now level =
      m.last_tick_log == 0
      || leb_ℤ (if level_eq level normal then pos (10 * second) else pos (5 * second))
          (sub_time now m.last_tick_log)

  -- The state that logTick keeps; the log lines are left out.
  unfoldable pub log_tick : Monitor F → ℕ → PressureLevel → Monitor F
  unfolding should_log_tick
  log_tick m now level = record m {
    last_tick_log = if should_log_tick m now level then now else m.last_tick_log;
    last_level = level;
  }

  -- The delay that Run sets its timer to.
  unfoldable pub next_delay : Monitor F → Decision F → ℤ
  next_delay m d = if leb_ℤ d.next_interval (pos 0) then m.base_interval else d.next_interval

module _ {F : Type 0} ⦃o : FloatOps F⦄ where
  unfoldable pub new_monitor : Config F → Option (Executor F) → Monitor F
  unfolding new_engine
  new_monitor cfg executor = record {
    engine = new_engine cfg;
    executor = executor;
    base_interval = (new_engine cfg).cfg.base_interval;
    last_level = normal;
    last_tick_log = 0;
  }

  abbrev apply_some :
      Option (Executor F) → World → Decision F → ℕ → Option (Executor F) × List Effect
  apply_some none w d now = (none, [])
  apply_some (some e) w d now = let (e1, acts) = apply e w d now in (some e1, acts)

  -- One cycle at `now`, whose sample and world are given.
  unfoldable pub step : Monitor F → Sample → World → ℕ → Monitor F × Decision F × List Effect
  unfolding log_tick
  step m s w now =
      let (engine, d) = decide m.engine s in
      let m1 = log_tick (record m { engine = engine }) now d.level in
      let (executor, acts) = apply_some m.executor w d now in
      (record m1 { executor = executor }, d, acts)

  unfoldable pub run : Monitor F → List Tick → Monitor F
  run m [] = m
  run m (t ∷ ts) = run (step m t.sample t.world t.now).0 ts

  -- The base interval that the monitor fell back on is the engine's, and positive.
  record Paced (m : Monitor F) : Type 0 where
    same : m.engine.cfg.base_interval ≡ m.base_interval
    positive : pos 1 ≤ℤ m.base_interval

  new_monitor-Paced : (cfg : Config F) (e : Option (Executor F)) → Paced (new_monitor cfg e)
  unfolding new_monitor
  new_monitor-Paced cfg e = record { same = refl; positive = ground arith }

  step-Paced :
      (m : Monitor F) (s : Sample) (w : World) (now : ℕ) → Paced m → Paced (step m s w now).0
  unfolding step
  step-Paced m s w now h = record {
    same = ap (λ (c : Config F). c.base_interval) (decide-cfg m.engine s) ∙ h.same;
    positive = h.positive;
  }

  run-Paced : (m : Monitor F) (ts : List Tick) → Paced m → Paced (run m ts)
  unfolding run
  run-Paced m [] h = h
  run-Paced m (t ∷ ts) h =
      run-Paced (step m t.sample t.world t.now).0 ts (step-Paced m t.sample t.world t.now h)

  step-delay :
      (m : Monitor F) (s : Sample) (w : World) (now : ℕ)
      → Paced m
      → let r = step m s w now in
        (pos 1 ≤ℤ next_delay r.0 r.1)
        × ((r.1.level ≢ hard) ⊎ (next_delay r.0 r.1 ≡ pos 100_000_000))
        × ((next_delay r.0 r.1 ≡ pos 100_000_000)
            ⊎ (next_delay r.0 r.1 ≡ pos 500_000_000)
            ⊎ (next_delay r.0 r.1 ≡ m.base_interval))
  unfolding step next_delay decide
  step-delay m s w now h = ground (arith, assess-same m.engine s)

  -- Whatever the monitor has been through, its timer is set to a positive delay after each cycle:
  -- a tenth of a second when the cycle decides Hard, and otherwise that, half a second, or the
  -- configured base interval.
  pub run-delay :
      (cfg : Config F) (e : Option (Executor F)) (ts : List Tick) (s : Sample) (w : World) (now : ℕ)
      → let m = run (new_monitor cfg e) ts in
        let r = step m s w now in
        (pos 1 ≤ℤ next_delay r.0 r.1)
        × ((r.1.level ≢ hard) ⊎ (next_delay r.0 r.1 ≡ pos 100_000_000))
        × ((next_delay r.0 r.1 ≡ pos 100_000_000)
            ⊎ (next_delay r.0 r.1 ≡ pos 500_000_000)
            ⊎ (next_delay r.0 r.1 ≡ m.base_interval))
  run-delay cfg e ts s w now =
      step-delay (run (new_monitor cfg e) ts) s w now (run-Paced _ ts (new_monitor-Paced cfg e))
