-- ===== src/Prelude/Text.antt =====
-- Walks over the characters of a text, as `len`, `any`, `startswith` and `removeprefix` make them.
use Prim.Native.Nat.{ℕ, suc}
use Prim.Native.Char.{Char, code}
use Prim.Native.String.{String}
use mathlib.Core.Bool.{Bool, false, ◌||◌}
use mathlib.Core.Option.{Option, none, some}
use carhibou.Prelude.Booleans.{eqb, if◌then◌else◌}

-- `len(s)`
abbrev pub text_length : String → ℕ
text_length String.[] = 0
text_length (String.◌∷◌ c s) = suc (text_length s)

-- `any(test(c) for c in s)`
abbrev pub any_char : (Char → Bool) → String → Bool
any_char test String.[] = false
any_char test (String.◌∷◌ c s) = test c || any_char test s

-- What follows a prefix, where the text starts with it.
abbrev pub after_prefix : String → String → Option String
after_prefix String.[] s = some s
after_prefix (String.◌∷◌ p ps) String.[] = none
after_prefix (String.◌∷◌ p ps) (String.◌∷◌ c s) =
    if eqb (code p) (code c) then after_prefix ps s else none

-- Classes of characters: `c.isspace()` and the `\d` of a pattern.
pub record Characters : Type 0 where
  pub is_space : Char → Bool
  pub is_digit : Char → Bool
