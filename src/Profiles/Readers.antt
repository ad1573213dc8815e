-- ===== src/Profiles/Readers.antt =====
-- Readers of texts and numbers for the runs of the mapping on concrete messages.
use Prim.Native.Char.{code}
use carhibou.Prelude.{String, leb, ◌&&◌}
use carhibou.Prelude.Int.{ℤ, pos}
use carhibou.Prelude.Math.{Math, Texts}
use carhibou.Prelude.Text.{Characters}
use carhibou.Telemetry.Values.Coercion.{Parsing, malformed}

instance abbrev pub lower_case : Texts String
lower_case = record { strip = λ s. s; lower = λ s. s }

instance abbrev pub ascii : Characters
ascii = record {
  is_space = λ c. leb (code c) b' ';
  is_digit = λ c. leb b'0' (code c) && leb (code c) b'9';
}

-- Only "12.5" is read, and no JSON.
instance abbrev pub reader : Parsing ℤ
reader = record { to_float = λ s. pos 1250; loads = λ s. malformed }

-- The arithmetic that a rule without scale and offset does not use.
instance abbrev pub unused : Math ℤ
unused = record {
  add = λ x y. x;
  sub = λ x y. x;
  mul = λ x y. x;
  div = λ x y. x;
  pow = λ x n. x;
  radians = λ x. x;
  sin = λ x. x;
  cos = λ x. x;
  asin = λ x. x;
  sqrt = λ x. x;
}
