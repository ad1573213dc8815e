-- ===== src/Prelude/Math.antt =====
-- The arithmetic on floats and the functions of Python's `math` module as an interface: the
-- program's results do not rest on what they compute.
use Prim.Native.Nat.{ℕ}

pub record Math (F : Type 0) : Type 0 where
  -- `x + y`, `x - y`, `x * y`, `x / y` and `x ** n`
  pub add : F → F → F
  pub sub : F → F → F
  pub mul : F → F → F
  pub div : F → F → F
  pub pow : F → ℕ → F
  pub radians : F → F
  pub sin : F → F
  pub cos : F → F
  pub asin : F → F
  pub sqrt : F → F

-- `str.strip` and `str.lower`, of which only the results are compared.
pub record Texts (S : Type 0) : Type 0 where
  pub strip : S → S
  pub lower : S → S
