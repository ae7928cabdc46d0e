-- ===== src/Memmon/Types.antt =====
-- The types of vpn/memmon/types.go and the clock arithmetic of package memmon.
-- An instant is its nanoseconds since the zero time.Time, a duration a signed number of
-- nanoseconds. time.Time.Sub saturates at 292 years; the durations it is compared with lie far
-- below that, so the comparisons are those of the plain difference.
use radiance.Common.{ℕ, ◌==◌, Bool, Option, List, if◌then◌else◌}
use radiance.Common.Int.{ℤ, sub_ℕ}
use radiance.Memmon.Float.{FloatOps}
use Prim.Native.String.{String}

abbrev pub second : ℕ
second = 1_000_000_000

abbrev pub millisecond : ℕ
millisecond = 1_000_000

abbrev pub sub_time : ℕ → ℕ → ℤ
sub_time a b = sub_ℕ a b

pub data PressureLevel : Type 0 where
  normal soft hard : PressureLevel

-- The int8 behind the level.
abbrev pub rank : PressureLevel → ℕ
rank normal = 0
rank soft = 1
rank hard = 2

abbrev pub level_string : PressureLevel → String
level_string normal = "normal"
level_string soft = "soft"
level_string hard = "hard"

pub record GoStats : Type 0 where
  pub total_sys : ℕ
  pub heap_objects : ℕ
  pub heap_released : ℕ
  pub stacks : ℕ
  pub goroutines : ℕ
  pub num_gc : ℕ

pub record Sample : Type 0 where
  pub footprint : ℕ
  pub cap : ℕ
  pub go_bytes : ℕ
  pub available : ℕ
  pub has_native_footprint : Bool
  pub go_stats : GoStats
  pub timestamp : ℕ

pub record LevelChange : Type 0 where
  pub timestamp : ℕ
  pub from : PressureLevel
  pub to : PressureLevel
  pub reason : String

pub record Snapshot : Type 0 where
  pub samples : List Sample
  pub levels : List LevelChange

pub record Decision (F : Type 0) : Type 0 where
  pub level : PressureLevel
  pub footprint : ℕ
  pub pressure_ratio : F
  pub evict_oldest_batch : Bool
  pub close_all_connections : Bool
  pub next_interval : ℤ
  pub write_dump : Bool
  pub snapshot : Option Snapshot
  pub is_predicted : Bool
  pub reason : String

abbrev pub reason_normal : String
reason_normal = "normal"

abbrev pub reason_soft_enter : String
reason_soft_enter = "soft_enter"

abbrev pub reason_soft_hold : String
reason_soft_hold = "soft_hold"

abbrev pub reason_soft_exit : String
reason_soft_exit = "soft_exit"

abbrev pub reason_hard_enter : String
reason_hard_enter = "hard_enter"

abbrev pub reason_hard_predicted : String
reason_hard_predicted = "hard_predicted"

abbrev pub reason_hard_hold : String
reason_hard_hold = "hard_hold"

module _ {F : Type 0} ⦃o : FloatOps F⦄ where
  unfoldable pub clamp_unit : F → F
  clamp_unit f =
      if o.lt f (o.of_nat 0) then o.of_nat 0 else if o.lt (o.of_nat 1) f then o.of_nat 1 else f

  unfoldable pub pressure_ratio : Sample → F
  unfolding clamp_unit
  pressure_ratio s =
      if s.cap == 0 then o.of_nat 0 else clamp_unit (o.div (o.of_nat s.footprint) (o.of_nat s.cap))
