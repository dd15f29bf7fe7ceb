-- ===== src/Prelude/Equality.antt =====
-- Python's `==` and `in` on texts, through a decision that stays shut: a split on `s == t` then
-- yields the equation or its negation.
use Prim.Native.String.{String, compare}
use mathlib.Core.Path.{◌≡◌}
use mathlib.Core.Logic.{ite, dite}
use mathlib.Core.Bool.{Bool, true, false, not, ◌||◌, Bool-discrete}
use mathlib.Core.List.{List, [], ◌∷◌}
use mathlib.Core.Option.{Option, none, some}
use text.Mathlib.Text
use text.Mathlib.TextEquality.{eq_iff}
use native.Mathlib.Omega.{arith}

unfoldable pub String-discrete : Discrete String
String-discrete s t =
    dite (Bool-discrete (Text.◌==◌ s t) true) (λ same. yes ((eq_iff s t).0 same))
      (λ differ. no (λ p. differ ((eq_iff s t).1 p)))

infix 50 ◌==◌
abbrev pub ◌==◌ : String → String → Bool
a == b = ite (String-discrete a b) true false

pub eq_self : (s : String) → (s == s) ≡ true
eq_self s = ground arith

-- `x in xs`
abbrev pub mem : String → List String → Bool
mem a [] = false
mem a (x ∷ xs) = a == x || mem a xs

-- `s < t`: the order by code points, which is that of the UTF-8 bytes.
unfoldable pub str_lt : String → String → Bool
str_lt s t = Text.is_lt (compare s t)

-- `bool(x)` of a `str | None`: an empty text counts as absent.
abbrev pub truthy : Option String → Bool
truthy none = false
truthy (some s) = not (s == "")
