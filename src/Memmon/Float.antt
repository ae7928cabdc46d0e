-- ===== src/Memmon/Float.antt =====
-- The float64 operations that vpn/memmon uses, taken as an interface: the kernel has no floats.
-- No law is assumed here; a theorem that needs one names it.
use radiance.Common.{ℕ, Bool}
use radiance.Common.Int.{ℤ}

pub record FloatOps (F : Type 0) : Type 0 where
  pub add : F → F → F
  pub sub : F → F → F
  pub mul : F → F → F
  pub div : F → F → F
  pub neg : F → F
  pub lt : F → F → Bool
  pub le : F → F → Bool
  pub eq : F → F → Bool
  -- The built-in `min`.
  pub min_of : F → F → F
  -- float64(n) of an unsigned integer.
  pub of_nat : ℕ → F
  -- The constant with n hundredths, and with n thousandths.
  pub hundredths : ℕ → F
  pub thousandths : ℕ → F
  -- Duration.Seconds of a number of nanoseconds.
  pub seconds : ℤ → F
