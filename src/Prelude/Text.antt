-- ===== src/Prelude/Text.antt =====
-- Formatted texts. An f-string is kept as its pieces, so a message or a shell command keeps the values
-- that it shows. The program never takes such a text apart, so it is not rendered here.
use Prim.Native.Nat.{ℕ}
use Prim.Native.String.{String}
use mathlib.Core.Option.{Option, none, some}
use mathlib.Core.List.{List, [], ◌∷◌}

pub data Piece : Type 0 where
  -- literal text, and `{x}` of a text
  str : String → Piece
  -- `{n}` of an integer
  num : ℕ → Piece
  -- `{x!r}` of a `str | None`
  repr : Option String → Piece
  -- `{xs}` of a list of texts
  strs : List String → Piece
  -- `{None}`
  nothing : Piece

abbrev pub Text : Type 0
Text = List Piece

abbrev pub lit : String → Text
lit s = str s ∷ []

-- `{n}` of an `int | None`
abbrev pub opt_num : Option ℕ → Piece
opt_num none = nothing
opt_num (some n) = num n
