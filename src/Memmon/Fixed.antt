-- ===== src/Memmon/Fixed.antt =====
-- A concrete FloatOps for the tests: signed thousandths, rounded towards zero.
-- No source file corresponds to it.
use radiance.Common.{ℕ, ◌*◌, ◌/◌, ◌+◌, Bool, true, false, if◌then◌else◌, ◌==◌}
use radiance.Common.Int.{ℤ, pos, negsuc, pos_part, neg_part, sub_ℕ, ◌+ℤ◌, ◌-ℤ◌, ltb_ℤ, leb_ℤ}
use radiance.Memmon.Float.{FloatOps}

abbrev magnitude : ℤ → ℕ
magnitude a = pos_part a + neg_part a

abbrev negative : ℤ → Bool
negative (pos n) = false
negative (negsuc n) = true

abbrev signed : Bool → Bool → ℕ → ℤ
signed true true n = pos n
signed false false n = pos n
signed _ _ n = sub_ℕ 0 n

instance abbrev pub milli : FloatOps ℤ
unfolding ◌+ℤ◌ ◌-ℤ◌
milli = record {
  add = λ a b. a +ℤ b;
  sub = λ a b. a -ℤ b;
  mul = λ a b. signed (negative a) (negative b) (magnitude a * magnitude b / 1000);
  div = λ a b. signed (negative a) (negative b) (magnitude a * 1000 / magnitude b);
  neg = λ a. pos 0 -ℤ a;
  lt = ltb_ℤ;
  le = leb_ℤ;
  eq = λ a b. pos_part a == pos_part b;
  min_of = λ a b. if leb_ℤ a b then a else b;
  of_nat = λ n. pos (n * 1000);
  hundredths = λ n. pos (n * 10);
  thousandths = λ n. pos n;
  seconds = λ d. signed (negative d) false (magnitude d / 1_000_000);
}
