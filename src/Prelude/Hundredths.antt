-- ===== src/Prelude/Hundredths.antt =====
-- Numbers with two decimals as floats, on which the tests run.
use Prim.Native.Nat.{ℕ}
use mathlib.Core.Bool.{true}
use carhibou.Prelude.Booleans.{eqb, if◌then◌else◌}
use carhibou.Prelude.Int.{ℤ, pos, neg_ℤ, abs_ℤ, scale_ℤ, leb_ℤ, ltb_ℤ}
use carhibou.Prelude.Float.{Float}

-- A literal with three decimals or more is not one of these numbers, and is read as 0.
abbrev pub hundredths_of : ℤ → ℕ → ℤ
hundredths_of n d =
    if eqb d 0
    then scale_ℤ 100 n
    else if eqb d 1
    then scale_ℤ 10 n
    else if eqb d 2
    then n
    else pos 0

instance abbrev pub hundredths : Float ℤ
hundredths = record {
  of_int = scale_ℤ 100;
  decimal = hundredths_of;
  is_finite = λ _. true;
  le = leb_ℤ;
  lt = ltb_ℤ;
  neg = neg_ℤ;
  abs = abs_ℤ;
}
