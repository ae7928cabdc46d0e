-- ===== src/Memmon/Gate.antt =====
-- vpn/memmon/admissiongate.go. The sampler is an argument: what a Sampler reads at an instant.
-- RecordDial and Observe run on different goroutines. Their atomic parts are functions of their
-- own (`record_new`, `latch`, `arm`, `lift`), so that an interleaving is a list of such parts.
-- Two fields beside the source's record the calls of setReject and the times of the sampler's
-- reads, newest first. recordNew, whose loads and stores may interleave in the source, is one part.
pub mod Latch
pub mod Burst
use radiance.Common.{
  ℕ, suc, ◌+◌, ◌*◌, Bool, true, false, not, ◌&&◌, ◌||◌, List, [], ◌∷◌, if◌then◌else◌, leb, ltb,
  ◌==◌,
}
use radiance.Common.Int.{ℤ, pos, negsuc, sub_ℕ, ◌-ℤ◌, leb_ℤ, ltb_ℤ}
use radiance.Memmon.Float.{FloatOps}
use radiance.Memmon.Types.{
  PressureLevel, rank, soft, Sample, GoStats, pressure_ratio, sub_time, second, millisecond,
}

pub record AdmissionConfig (F : Type 0) : Type 0 where
  pub start_rejecting_pressure : F
  pub stop_rejecting_pressure : F
  pub sample_cache_ttl : ℤ
  pub max_reject_duration : ℤ
  pub burst_dial_threshold : ℤ
  pub burst_dial_window : ℤ

pub record Gate (F : Type 0) : Type 0 where
  pub cfg : AdmissionConfig F
  pub armed : Bool
  pub conn_count : ℕ
  pub win_start : ℤ
  pub cached : Sample
  pub cached_at : ℕ
  pub have_cached : Bool
  pub rejecting : Bool
  pub reject_since : ℕ
  pub calls : List Bool
  pub reads : List ℕ

abbrev zero_sample : Sample
zero_sample = record {
  footprint = 0;
  cap = 0;
  go_bytes = 0;
  available = 0;
  has_native_footprint = false;
  go_stats = record {
    total_sys = 0;
    heap_objects = 0;
    heap_released = 0;
    stacks = 0;
    goroutines = 0;
    num_gc = 0;
  };
  timestamp = 0;
}

-- time.Time.UnixNano: nanoseconds since 1970, 719162 days after the zero time.
abbrev pub unix_nano : ℕ → ℤ
unix_nano now = sub_ℕ now (719162 * 86400 * second)

abbrev is_zero : ℤ → Bool
is_zero (pos n) = n == 0
is_zero (negsuc n) = false

-- The atomic parts, in any order and on any goroutine. An `arm` may fall between the test of
-- RecordDial and its locked part, so `latch` stands for itself.
pub data Part (F : Type 0) : Type 0 where
  counts : ℕ → Part F
  latches : ℕ → Part F
  arms : PressureLevel → Part F
  lifts : F → ℕ → Part F

module _ {F : Type 0} where
  -- The window has not begun, or is over.
  unfoldable pub window_over : Gate F → ℤ → Bool
  window_over g now_n = is_zero g.win_start || ltb_ℤ g.cfg.burst_dial_window (now_n -ℤ g.win_start)

  unfoldable pub record_new : Gate F → ℕ → Bool × Gate F
  unfolding window_over
  record_new g now =
      if leb_ℤ g.cfg.burst_dial_threshold (pos 0)
      then (false, g)
      else if window_over g (unix_nano now)
      then (false, record g { win_start = unix_nano now; conn_count = 1 })
      else (
        leb_ℤ g.cfg.burst_dial_threshold (pos (g.conn_count + 1)),
        record g { conn_count = g.conn_count + 1 },
      )

  unfoldable pub arm : Gate F → PressureLevel → Gate F
  arm g level = record g { armed = leb (rank soft) (rank level) }

module _ {F : Type 0} ⦃o : FloatOps F⦄ where
  unfoldable pub apply_defaults : AdmissionConfig F → AdmissionConfig F
  apply_defaults c = record {
    start_rejecting_pressure =
        if o.le c.start_rejecting_pressure (o.of_nat 0)
        then o.hundredths 92
        else c.start_rejecting_pressure;
    stop_rejecting_pressure =
        if o.le c.stop_rejecting_pressure (o.of_nat 0)
        then o.hundredths 85
        else c.stop_rejecting_pressure;
    sample_cache_ttl =
        if leb_ℤ c.sample_cache_ttl (pos 0) then pos (75 * millisecond) else c.sample_cache_ttl;
    max_reject_duration =
        if leb_ℤ c.max_reject_duration (pos 0) then pos (10 * second) else c.max_reject_duration;
    burst_dial_threshold =
        if is_zero c.burst_dial_threshold then pos 32 else c.burst_dial_threshold;
    burst_dial_window =
        if leb_ℤ c.burst_dial_window (pos 0) then pos (250 * millisecond) else c.burst_dial_window;
  }

  unfoldable pub new_gate : AdmissionConfig F → Gate F
  unfolding apply_defaults
  new_gate cfg = record {
    cfg = apply_defaults cfg;
    armed = false;
    conn_count = 0;
    win_start = pos 0;
    cached = zero_sample;
    cached_at = 0;
    have_cached = false;
    rejecting = false;
    reject_since = 0;
    calls = [];
    reads = [];
  }

  unfoldable pub sample_pressure_locked : (ℕ → Sample) → Gate F → ℕ → F × Gate F
  sample_pressure_locked sampler g now =
      let g1 =
        if not g.have_cached || leb_ℤ g.cfg.sample_cache_ttl (sub_time now g.cached_at)
        then record g {
          cached = sampler now;
          cached_at = now;
          have_cached = true;
          reads = now ∷ g.reads;
        }
        else g in
      (pressure_ratio g1.cached, g1)

  -- The locked part of RecordDial.
  unfoldable pub latch : (ℕ → Sample) → Gate F → ℕ → Gate F
  unfolding sample_pressure_locked
  latch sampler g now =
      let (p, g1) = sample_pressure_locked sampler g now in
      if g.rejecting
      then g
      else if o.le g.cfg.start_rejecting_pressure p
      then record g1 { rejecting = true; reject_since = now; calls = true ∷ g1.calls }
      else g1

  unfoldable pub record_dial : (ℕ → Sample) → Gate F → ℕ → Gate F
  unfolding record_new latch
  record_dial sampler g now =
      let (burst, g1) = record_new g now in
      if not g1.armed && not burst then g1 else latch sampler g1 now

  -- The locked part of Observe.
  unfoldable pub lift : Gate F → F → ℕ → Gate F
  lift g pressure now =
      if g.rejecting
        && (o.lt pressure g.cfg.stop_rejecting_pressure
            || leb_ℤ g.cfg.max_reject_duration (sub_time now g.reject_since))
      then record g { rejecting = false; calls = false ∷ g.calls }
      else g

  unfoldable pub observe : Gate F → PressureLevel → F → ℕ → Gate F
  unfolding arm lift
  observe g level pressure now = lift (arm g level) pressure now

  unfoldable pub part : (ℕ → Sample) → Gate F → Part F → Gate F
  unfolding record_new latch arm lift
  part sampler g (counts now) = (record_new g now).1
  part sampler g (latches now) = latch sampler g now
  part sampler g (arms level) = arm g level
  part sampler g (lifts pressure now) = lift g pressure now

  unfoldable pub interleave : (ℕ → Sample) → Gate F → List (Part F) → Gate F
  unfolding part
  interleave sampler g [] = g
  interleave sampler g (a ∷ rest) = interleave sampler (part sampler g a) rest
