-- ===== src/Prelude/Strings.antt =====
-- The methods of Python's `str` that the program calls on the output of commands. White space and line
-- ends are those of the ASCII range, and digits are ASCII digits.
use Prim.Native.Char.{Char, code}
use Prim.Native.Nat.{ℕ, ◌+◌, ◌-◌, ◌*◌}
use Prim.Native.String.{String}
use mathlib.Core.Bool.{Bool, true, false, ◌&&◌, ◌||◌, not}
use mathlib.Core.Option.{Option, none, some}
use mathlib.Core.List.{List, [], ◌∷◌}
use solfleet.Prelude.Tests.{leb, eqb, if◌then◌else◌}
use solfleet.Prelude.Equality.{◌==◌}

abbrev is_space : Char → Bool
is_space c =
    (leb 9 (code c) && leb (code c) 13) || (leb 28 (code c) && leb (code c) 31) || eqb (code c) 32

-- `s.lstrip()`
unfoldable pub lstrip : String → String
lstrip String.[] = String.[]
lstrip (String.◌∷◌ c s) = let rest = lstrip s in if is_space c then rest else String.◌∷◌ c s

-- A character in front of a text from which the white space at the end is gone.
abbrev before_stripped : Char → String → String
before_stripped c String.[] = if is_space c then String.[] else String.◌∷◌ c String.[]
before_stripped c (String.◌∷◌ d s) = String.◌∷◌ c (String.◌∷◌ d s)

-- `s.rstrip()`
unfoldable pub rstrip : String → String
rstrip String.[] = String.[]
rstrip (String.◌∷◌ c s) = before_stripped c (rstrip s)

unfoldable pub strip : String → String
unfolding lstrip rstrip
strip s = rstrip (lstrip s)

-- `s.lstrip(c)` of one character, given by its code.
unfoldable pub lstrip_char : ℕ → String → String
lstrip_char n String.[] = String.[]
lstrip_char n (String.◌∷◌ c s) =
    let rest = lstrip_char n s in if eqb (code c) n then rest else String.◌∷◌ c s

-- `s.startswith(prefix)`
unfoldable pub starts_with : String → String → Bool
starts_with String.[] s = true
starts_with (String.◌∷◌ c p) String.[] = false
starts_with (String.◌∷◌ c p) (String.◌∷◌ d s) = eqb (code c) (code d) && starts_with p s

-- The part of a path up to its last `/`, that character included.
abbrev path_head : String → String
path_head String.[] = String.[]
path_head (String.◌∷◌ c s) =
    let rest = path_head s in
    if rest == "" then (if eqb (code c) b'/' then "/" else "") else String.◌∷◌ c rest

abbrev before_slashes : Char → String → String
before_slashes c String.[] = if eqb (code c) b'/' then String.[] else String.◌∷◌ c String.[]
before_slashes c (String.◌∷◌ d s) = String.◌∷◌ c (String.◌∷◌ d s)

-- `s.rstrip("/")`
unfoldable pub rstrip_slashes : String → String
rstrip_slashes String.[] = String.[]
rstrip_slashes (String.◌∷◌ c s) = before_slashes c (rstrip_slashes s)

-- `os.path.dirname(p)`
unfoldable pub dirname : String → String
unfolding rstrip_slashes
dirname p = let head = rstrip_slashes (path_head p) in if head == "" then path_head p else head

abbrev cons_word : Char → List String → List String
cons_word c [] = String.◌∷◌ c String.[] ∷ []
cons_word c (w ∷ ws) = String.◌∷◌ c w ∷ ws

abbrev starts_word : String → Bool
starts_word String.[] = false
starts_word (String.◌∷◌ c s) = not (is_space c)

-- `s.split()`: a character that is no white space joins the word that begins right behind it.
unfoldable pub split : String → List String
split String.[] = []
split (String.◌∷◌ c s) =
    let rest = split s in
    if is_space c
    then rest
    else if starts_word s
    then cons_word c rest
    else String.◌∷◌ c String.[] ∷ rest

abbrev is_line_end : Char → Bool
is_line_end c = (leb 10 (code c) && leb (code c) 13) || (leb 28 (code c) && leb (code c) 30)

abbrev starts_with_lf : String → Bool
starts_with_lf String.[] = false
starts_with_lf (String.◌∷◌ c s) = eqb (code c) 10

-- `s.splitlines()`: no line stands behind the last line end, and `\r\n` is one line end.
unfoldable pub splitlines : String → List String
splitlines String.[] = []
splitlines (String.◌∷◌ c s) =
    let rest = splitlines s in
    if eqb (code c) 13 && starts_with_lf s
    then rest
    else if is_line_end c
    then String.[] ∷ rest
    else cons_word c rest

-- `s.partition("=")` where the text holds a `=`, else `none`.
unfoldable pub partition_eq : String → Option (String × String)
partition_eq String.[] = none
partition_eq (String.◌∷◌ c s) =
    let rest = partition_eq s in
    if eqb (code c) b'='
    then some (String.[], s)
    else elim rest [ none ↦ none | some (k, v) ↦ some (String.◌∷◌ c k, v) ]

abbrev digits : ℕ → String → Option ℕ
digits n String.[] = some n
digits n (String.◌∷◌ c s) =
    let rest = digits (n * 10 + (code c - 48)) s in
    if leb 48 (code c) && leb (code c) 57 then rest else none

-- `int(s) if s.isdigit() else None`
unfoldable pub to_int : String → Option ℕ
to_int s = if s == "" then none else digits 0 s

-- `t in s`
unfoldable pub contains : String → String → Bool
unfolding starts_with
contains t String.[] = t == ""
contains t (String.◌∷◌ c s) = starts_with t (String.◌∷◌ c s) || contains t s

abbrev pub str_length : String → ℕ
str_length String.[] = 0
str_length (String.◌∷◌ c s) = str_length s + 1

-- `s + t`
abbrev pub append_text : String → String → String
append_text String.[] t = t
append_text (String.◌∷◌ c s) t = String.◌∷◌ c (append_text s t)

-- `s[-n:]` for `0 < n`
unfoldable pub last_chars : ℕ → String → String
last_chars n String.[] = String.[]
last_chars n (String.◌∷◌ c s) =
    let rest = last_chars n s in
    if leb (str_length (String.◌∷◌ c s)) n then String.◌∷◌ c s else rest
