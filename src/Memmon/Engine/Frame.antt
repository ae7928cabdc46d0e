-- ===== src/Memmon/Engine/Frame.antt =====
-- What Decide of vpn/memmon/decision_engine.go leaves alone: one lemma for each part of a tick.
use radiance.Common.{◌≡◌, refl, Bool, arith}
use radiance.Memmon.Float.{FloatOps}
use radiance.Memmon.Types.{PressureLevel, normal, soft, hard, Sample}
use radiance.Memmon.Engine.{
  Engine, assess, decide, next_level, next_from, update_slope, push_ring, bounded_append, ring_len,
}

-- The fields that the choice of a level does not touch.
pub record SameReclaim {F : Type 0} (c d : Engine F) : Type 0 where
  pub cfg : d.cfg ≡ c.cfg
  pub level : d.level ≡ c.level
  pub settle_until : d.settle_until ≡ c.settle_until
  pub last_hard_fire : d.last_hard_fire ≡ c.last_hard_fire
  pub have_hard_fire : d.have_hard_fire ≡ c.have_hard_fire
  pub dumped : d.dumped_this_episode ≡ c.dumped_this_episode
  pub ring : d.ring ≡ c.ring

module _ {F : Type 0} ⦃o : FloatOps F⦄ where
  next_from-same :
      (l : PressureLevel) (c : Engine F) (p e : F) (predicted in_settle rising : Bool)
      → SameReclaim c (next_from l c p e predicted in_settle rising).1
  unfolding next_from
  next_from-same normal c p e predicted in_settle rising = ground arith
  next_from-same soft c p e predicted in_settle rising = ground arith
  next_from-same hard c p e predicted in_settle rising = ground arith

  pub assess-same :
      (c : Engine F) (s : Sample)
      → SameReclaim (record c { ring = bounded_append c.ring s ring_len }) (assess c s).1
  unfolding assess next_level update_slope push_ring
  assess-same c s =
      let h = next_from-same c.level _ _ _ _ _ _ in
      record {
        cfg = h.cfg;
        level = h.level;
        settle_until = h.settle_until;
        last_hard_fire = h.last_hard_fire;
        have_hard_fire = h.have_hard_fire;
        dumped = h.dumped;
        ring = h.ring;
      }

  pub decide-cfg : (c : Engine F) (s : Sample) → (decide c s).0.cfg ≡ c.cfg
  unfolding decide
  decide-cfg c s = ground (arith, assess-same c s)

  pub decide-ring :
      (c : Engine F) (s : Sample) → (decide c s).0.ring ≡ bounded_append c.ring s ring_len
  unfolding decide
  decide-ring c s = ground (arith, assess-same c s)

  pub decide-dwell_same :
      (c : Engine F) (s : Sample) → (decide c s).0.down_dwell ≡ (assess c s).1.down_dwell
  unfolding decide
  decide-dwell_same c s = ground arith

  pub decide-level_same : (c : Engine F) (s : Sample) → (decide c s).0.level ≡ (assess c s).0
  unfolding decide
  decide-level_same c s = refl
