-- ===== src/Safety/Fnmatch.antt =====
-- `fnmatch.fnmatch` of the standard library, as src/solfleet/safety.py calls it on a POSIX system: `*`,
-- `?`, `[seq]` and `[!seq]`, and every other character for itself.
use Prim.Native.Char.{code}
use solfleet.Prelude.{
  ℕ, zero, suc, Bool, true, false, not, ◌&&◌, ◌||◌, List, [], ◌∷◌, ◌++◌, String, eqb, leb, length,
  Option, none, some, if◌then◌else◌, ◌≡◌, refl, arith,
}

abbrev pub codes : String → List ℕ
codes String.[] = []
codes (String.◌∷◌ c s) = code c ∷ codes s

pub data Token : Type 0 where
  star any_char : Token
  literal : ℕ → Token
  -- the ranges of `[...]`, and whether `!` negates them
  class : Bool → List (ℕ × ℕ) → Token

-- `a-z` is a range; a `-` that stands first or last is itself.
abbrev ranges : List ℕ → List (ℕ × ℕ)
ranges [] = []
ranges (a ∷ []) = (a, a) ∷ []
ranges (a ∷ b ∷ []) = (a, a) ∷ (b, b) ∷ []
ranges (a ∷ b ∷ c ∷ s) =
    let tail = ranges (b ∷ c ∷ s) in
    let jump = ranges s in if eqb b b'-' then (a, c) ∷ jump else (a, a) ∷ tail

abbrev class_of : List ℕ → Token
class_of [] = class false []
class_of (c ∷ s) = if eqb c b'!' then class true (ranges s) else class false (ranges (c ∷ s))

-- Splits at the `]` that closes the set; `none` if there is none.
abbrev until_close : List ℕ → Option (List ℕ × List ℕ)
until_close [] = none
until_close (c ∷ s) =
    let rest = until_close s in
    if eqb c b']'
    then some ([], s)
    else elim rest [ none ↦ none | some (stuff, after) ↦ some (c ∷ stuff, after) ]

-- A `]` directly behind the `[` or `[!` belongs to the set.
abbrev close_second : ℕ → List ℕ → Option (List ℕ × List ℕ)
close_second c s = elim (until_close s) [
  | none ↦ none
  | some (stuff, after) ↦ some (c ∷ stuff, after)
]

abbrev close_after_bang : List ℕ → Option (List ℕ × List ℕ)
close_after_bang [] = none
close_after_bang (c ∷ s) = if eqb c b']' then close_second c s else until_close (c ∷ s)

abbrev find_close : List ℕ → Option (List ℕ × List ℕ)
find_close [] = none
find_close (c ∷ s) =
    if eqb c b'!'
    then elim (close_after_bang s) [ none ↦ none | some (stuff, after) ↦ some (c ∷ stuff, after) ]
    else if eqb c b']'
    then close_second c s
    else until_close (c ∷ s)

-- Each round takes at least one character of the pattern, so its length is enough fuel.
abbrev tokens : ℕ → List ℕ → List Token
tokens zero pat = []
tokens (suc fuel) [] = []
tokens (suc fuel) (c ∷ pat) =
    let rest = tokens fuel pat in
    if eqb c b'*'
    then star ∷ rest
    else if eqb c b'?'
    then any_char ∷ rest
    else if eqb c b'['
    then elim (find_close pat) [
      | none ↦ literal c ∷ tokens fuel pat
      | some (stuff, after) ↦ class_of stuff ∷ tokens fuel after
    ]
    else literal c ∷ rest

abbrev in_ranges : ℕ → List (ℕ × ℕ) → Bool
in_ranges c [] = false
in_ranges c ((lo, hi) ∷ rs) = (leb lo c && leb c hi) || in_ranges c rs

-- `.*` before what `rest` accepts.
abbrev anywhere : (List ℕ → Bool) → List ℕ → Bool
anywhere rest [] = rest []
anywhere rest (c ∷ s) = rest (c ∷ s) || anywhere rest s

abbrev one_char : (ℕ → Bool) → (List ℕ → Bool) → List ℕ → Bool
one_char test rest [] = false
one_char test rest (c ∷ s) = test c && rest s

-- The whole text is matched, as `\Z` asks.
unfoldable pub accepts : List Token → List ℕ → Bool
accepts [] [] = true
accepts [] (c ∷ s) = false
accepts (star ∷ ts) s = anywhere (accepts ts) s
accepts (any_char ∷ ts) s = one_char (λ _. true) (accepts ts) s
accepts (literal d ∷ ts) s = one_char (eqb d) (accepts ts) s
accepts (class negated rs ∷ ts) s =
    one_char (λ c. if negated then not (in_ranges c rs) else in_ranges c rs) (accepts ts) s

unfoldable pub fnmatch_codes : List ℕ → List ℕ → Bool
unfolding accepts
fnmatch_codes name pat = accepts (tokens (length pat) pat) name

unfoldable pub fnmatch : String → String → Bool
unfolding fnmatch_codes
fnmatch name pat = fnmatch_codes (codes name) (codes pat)

-- Every character of the text stands for itself in a pattern.
abbrev pub IsPlain : List ℕ → Type 0
IsPlain [] = Unit
IsPlain (c ∷ s) = (eqb c b'*' ≡ false) × (eqb c b'?' ≡ false) × (eqb c b'[' ≡ false) × IsPlain s

abbrev pub is_prefix : List ℕ → List ℕ → Bool
is_prefix [] s = true
is_prefix (c ∷ p) [] = false
is_prefix (c ∷ p) (d ∷ s) = eqb c d && is_prefix p s

abbrev pub same_codes : List ℕ → List ℕ → Bool
same_codes [] [] = true
same_codes [] (d ∷ s) = false
same_codes (c ∷ p) [] = false
same_codes (c ∷ p) (d ∷ s) = eqb c d && same_codes p s

accepts-star : (s : List ℕ) → accepts (star ∷ []) s ≡ true
unfolding accepts
accepts-star [] = refl
accepts-star (c ∷ s) = accepts-star s

-- A plain text with a `*` behind it matches exactly the names that begin with the text.
pub fnmatch_codes-prefix :
    (p s : List ℕ) → IsPlain p → fnmatch_codes s (p ++ b'*' ∷ []) ≡ is_prefix p s
unfolding fnmatch_codes
fnmatch_codes-prefix [] s h = accepts-star s
fnmatch_codes-prefix (c ∷ p) [] h = ground arith
fnmatch_codes-prefix (c ∷ p) (d ∷ s) h = ground (arith, fnmatch_codes-prefix p s)

-- A plain text matches exactly itself.
pub fnmatch_codes-plain : (p s : List ℕ) → IsPlain p → fnmatch_codes s p ≡ same_codes p s
unfolding fnmatch_codes
fnmatch_codes-plain [] [] h = refl
fnmatch_codes-plain [] (d ∷ s) h = refl
fnmatch_codes-plain (c ∷ p) [] h = ground arith
fnmatch_codes-plain (c ∷ p) (d ∷ s) h = ground (arith, fnmatch_codes-plain p s)
