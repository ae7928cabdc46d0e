-- ===== src/Memmon/Engine/Levels.antt =====
-- How Decide of vpn/memmon/decision_engine.go moves the level.
use radiance.Common.{
  ℕ, ◌+◌, ◌≤◌, ◌<◌, ◌≡◌, refl, Bool, true, false, arith, List, [], ◌∷◌, length, ◌∙◌, ap, ◌≢◌,
  lt→ltb,
}
use radiance.Common.Int.{pos}
use radiance.Memmon.Float.{FloatOps}
use radiance.Memmon.Types.{PressureLevel, normal, soft, hard, rank, Sample, pressure_ratio}
use radiance.Memmon.Engine.{
  Engine, assess, decide, run, next_level, next_from, update_slope, push_ring, new_slope,
  slope_rise_eps,
}
use radiance.Memmon.Engine.Frame.{decide-cfg, decide-dwell_same, decide-level_same}

-- One step along normal, soft, hard, or none.
abbrev pub Adjacent : PressureLevel → PressureLevel → Type 0
Adjacent a b = (rank a ≤ rank b + 1) × (rank b ≤ rank a + 1)

module _ {F : Type 0} ⦃o : FloatOps F⦄ where
  next_from-Adjacent :
      (l : PressureLevel) (c : Engine F) (p e : F) (predicted in_settle rising : Bool)
      → c.level ≡ l
      → Adjacent l (next_from l c p e predicted in_settle rising).0
  unfolding next_from
  next_from-Adjacent normal c p e predicted in_settle rising h = ground arith
  next_from-Adjacent soft c p e predicted in_settle rising h = ground arith
  next_from-Adjacent hard c p e predicted in_settle rising h = ground arith

  -- A tick stores the level that it decides, and that level is at most one step from the level
  -- before: no tick goes from normal to hard, and none from hard to normal.
  pub decide-Adjacent :
      (c : Engine F) (s : Sample)
      → ((decide c s).0.level ≡ (decide c s).1.level) × Adjacent c.level (decide c s).1.level
  unfolding decide next_level push_ring update_slope
  decide-Adjacent c s = (refl, next_from-Adjacent c.level _ _ _ _ _ _ refl)

  -- In Hard a tick counts one reading at or below the exit threshold, or starts again.
  next_from-dwell :
      (l : PressureLevel) (c : Engine F) (p e : F) (predicted in_settle rising : Bool) (d : ℕ)
      → l ≡ hard
      → c.level ≡ l
      → c.cfg.dwell_samples ≡ pos d
      → c.down_dwell + 1 < d
      → let r = next_from l c p e predicted in_settle rising in
        (r.0 ≡ hard) × (r.1.down_dwell ≤ c.down_dwell + 1)
  unfolding next_from
  next_from-dwell normal c p e predicted in_settle rising d h _ k lt = cc
  next_from-dwell soft c p e predicted in_settle rising d h _ k lt = cc
  next_from-dwell hard c p e predicted in_settle rising d h g k lt = ground arith

  assess-dwell :
      (c : Engine F) (s : Sample) (d : ℕ)
      → c.level ≡ hard
      → c.cfg.dwell_samples ≡ pos d
      → c.down_dwell + 1 < d
      → ((assess c s).0 ≡ hard) × ((assess c s).1.down_dwell ≤ c.down_dwell + 1)
  unfolding assess next_level push_ring update_slope
  assess-dwell c s d h k lt = next_from-dwell c.level _ _ _ _ _ _ d h refl k lt

  -- From Hard, fewer ticks than `dwell_samples` (less those already counted) never leave Hard,
  -- whatever they read.
  pub run-hard_dwell :
      (c : Engine F) (ss : List Sample) (d : ℕ)
      → c.level ≡ hard
      → c.cfg.dwell_samples ≡ pos d
      → c.down_dwell + length ss < d
      → (run c ss).0.level ≡ hard
  unfolding run
  run-hard_dwell c [] d h k lt = h
  run-hard_dwell c (s ∷ ss) d h k lt =
      let a = assess-dwell c s d h k (omega arith) in
      run-hard_dwell (decide c s).0 ss d (decide-level_same c s ∙ a.0) (decide-cfg_dwell ∙ k)
        (omega (arith, a.1, decide-dwell_same c s))
    where
      decide-cfg_dwell : (decide c s).0.cfg.dwell_samples ≡ c.cfg.dwell_samples
      decide-cfg_dwell = ap (λ g. g.dwell_samples) (decide-cfg c s)

  -- A flat or falling footprint inside the settle window does not move Soft to Hard, however
  -- high it stands and whatever is predicted.
  next_from-settle :
      (l : PressureLevel) (c : Engine F) (p e : F) (predicted : Bool)
      → l ≡ soft
      → c.level ≡ l
      → (next_from l c p e predicted true false).0 ≢ hard
  unfolding next_from
  next_from-settle normal c p e predicted h g = cc
  next_from-settle soft c p e predicted h g = ground arith
  next_from-settle hard c p e predicted h g = cc

  -- In Soft, within a settle window and while pressure rises no faster than slopeRiseEps, a tick
  -- does not decide Hard, whatever the pressure.
  pub decide-settle_holds :
      (c : Engine F) (s : Sample)
      → c.level ≡ soft
      → s.timestamp < c.settle_until
      → o.lt slope_rise_eps (new_slope c (pressure_ratio s) s.timestamp) ≡ false
      → (decide c s).1.level ≢ hard
  unfolding decide next_level push_ring update_slope
  decide-settle_holds c s h before flat =
      rw (lt→ltb _ _ before, flat) (next_from-settle c.level _ _ _ _ h refl)
