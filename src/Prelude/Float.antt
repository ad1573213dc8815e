-- ===== src/Prelude/Float.antt =====
-- Python's floats as an interface: the operations that the program applies to them, and the
-- behaviour of finite numbers that its results rest on.
use mathlib.Core.Bool.{Bool}
use Prim.Native.Nat.{ℕ}
use carhibou.Prelude.Int.{ℤ}

pub record Float (F : Type 0) : Type 0 where
  -- `float(n)`
  pub of_int : ℤ → F
  -- The literal whose value is n / 10 ^ d.
  pub decimal : ℤ → ℕ → F
  -- `math.isfinite(x)`
  pub is_finite : F → Bool
  -- `x <= y` and `x < y`
  pub le : F → F → Bool
  pub lt : F → F → Bool
  -- `-x` and `abs(x)`
  pub neg : F → F
  pub abs : F → F
