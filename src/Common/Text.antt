-- ===== src/Common/Text.antt =====
-- The text functions of Python that the program uses. `strip`, `casefold` and `lower` follow the
-- tables of Unicode and are a parameter; `in` and the order of texts are defined here.
use Prim.Native.String.{String, compare}
use mathlib.Core.Bool.{Bool, true, false, ◌||◌}
use text.Mathlib.Text.{starts_with, is_lt}

pub record Unicode : Type 0 where
  pub strip : String → String
  pub casefold : String → String
  pub lower : String → String

-- `needle in hay`
unfoldable pub occurs : String → String → Bool
occurs needle String.[] = starts_with String.[] needle
occurs needle (String.◌∷◌ c s) = starts_with (String.◌∷◌ c s) needle || occurs needle s

-- `s < t`, by code points
abbrev pub str_ltb : String → String → Bool
str_ltb s t = is_lt (compare s t)

abbrev pub is_empty : String → Bool
is_empty String.[] = true
is_empty (String.◌∷◌ c s) = false

-- `value.strip().casefold()`, the `_normalize` of several modules.
unfoldable pub normalize : ⦃u : Unicode⦄ → String → String
normalize ⦃u⦄ s = u.casefold (u.strip s)
