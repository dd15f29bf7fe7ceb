-- ===== src/Cli/Table.antt =====
-- `format_table` of src/solfleet/cli.py. The lines that are joined by "\n" are a list, and a warning keeps
-- the values that it shows.
pub mod Aligned
use Prim.Native.Nat.{◌%◌}
use solfleet.Prelude.{
  ℕ, zero, suc, ◌+◌, ◌-◌, ◌/◌, Bool, true, false, ◌&&◌, ◌||◌, not, List, [], ◌∷◌, ◌++◌, map, String,
  Option, none, some, truthy, ltb, eqb, if◌then◌else◌,
}
use solfleet.Prelude.Text.{Text, str, lit}
use solfleet.Prelude.Strings.{append_text, str_length}
use solfleet.Config.{Role, rpc, validator}
use solfleet.Probe.{NodeStatus, ClusterStatus}

abbrev digit : ℕ → String
digit d =
    if eqb d 0
    then "0"
    else if eqb d 1
    then "1"
    else if eqb d 2
    then "2"
    else if eqb d 3
    then "3"
    else if eqb d 4
    then "4"
    else if eqb d 5
    then "5"
    else if eqb d 6
    then "6"
    else if eqb d 7
    then "7"
    else if eqb d 8
    then "8"
    else "9"

-- A number has no more digits than its value and one.
abbrev decimal : ℕ → ℕ → String
decimal zero n = ""
decimal (suc fuel) n =
    let rest = decimal fuel (n / 10) in
    if ltb n 10 then digit n else append_text rest (digit (n % 10))

-- `str(n)`
unfoldable pub str_nat : ℕ → String
str_nat n = decimal (n + 1) n

-- `bool(x)` of a formatted text
abbrev pub text_truthy : Option Text → Bool
text_truthy none = false
text_truthy (some []) = false
text_truthy (some (str s ∷ t)) = truthy (some s) || text_truthy (some t)
text_truthy (some (p ∷ t)) = true

abbrev spaces : ℕ → String
spaces zero = ""
spaces (suc n) = append_text " " (spaces n)

-- `c.ljust(w)`
unfoldable pub ljust : String → ℕ → String
ljust c w = append_text c (spaces (w - str_length c))

abbrev pub role_name : Role → String
role_name rpc = "rpc"
role_name validator = "validator"

abbrev healthy_name : Option Bool → String
healthy_name none = "-"
healthy_name (some true) = "ok"
healthy_name (some false) = "BEHIND"

abbrev pub health : NodeStatus → String
health n = if text_truthy n.error && not n.reachable then "UNREACHABLE" else healthy_name n.healthy

abbrev lag_name : Option ℕ → String
lag_name none = "-"
lag_name (some lag) = str_nat lag

abbrev delinquent_name : Option Bool → String
delinquent_name none = "-"
delinquent_name (some true) = "DELINQUENT"
delinquent_name (some false) = "voting"

-- `n.version or "-"`
abbrev or_dash : Option String → String
or_dash none = "-"
or_dash (some version) = if truthy (some version) then version else "-"

abbrev pub row : ClusterStatus → NodeStatus → List String
row cluster n =
    cluster.name
    ∷ n.name
    ∷ role_name n.role
    ∷ health n
    ∷ or_dash n.version
    ∷ lag_name n.slot_lag
    ∷ delinquent_name n.delinquent
    ∷ []

unfoldable pub table_rows : List ClusterStatus → List (List String)
unfolding str_nat
table_rows [] = []
table_rows (cluster ∷ clusters) = map (row cluster) cluster.nodes ++ table_rows clusters

abbrev pub headers : List String
headers = "CLUSTER" ∷ "NODE" ∷ "ROLE" ∷ "HEALTH" ∷ "VERSION" ∷ "SLOT LAG" ∷ "VOTE" ∷ []

abbrev pub max : ℕ → ℕ → ℕ
max a b = if ltb a b then b else a

-- The widths with those of one more row.
abbrev pub widen : List ℕ → List String → List ℕ
widen [] cells = []
widen (w ∷ ws) [] = w ∷ ws
widen (w ∷ ws) (c ∷ cells) = max w (str_length c) ∷ widen ws cells

-- `max(len(headers[i]), *(len(r[i]) for r in rows))` for every column
unfoldable pub widths : List (List String) → List ℕ
widths [] = map str_length headers
widths (r ∷ rows) = widen (widths rows) r

abbrev pub pad : List String → List ℕ → List String
pad [] ws = []
pad (c ∷ cells) [] = []
pad (c ∷ cells) (w ∷ ws) = ljust c w ∷ pad cells ws

-- `"  ".join(cells)`
abbrev pub join : List String → String
join [] = ""
join (c ∷ []) = c
join (c ∷ d ∷ cells) = append_text c (append_text "  " (join (d ∷ cells)))

unfoldable pub line : List ℕ → List String → String
line ws cells = join (pad cells ws)

abbrev pub lines_of : List (List String) → List String
lines_of rows = line (widths rows) headers ∷ map (line (widths rows)) rows

abbrev warning : String → Option Text → List Text
warning name none = []
warning name (some error) =
    if text_truthy (some error) then (str "warning: " ∷ str name ∷ str ": " ∷ error) ∷ [] else []

unfoldable pub warnings : List ClusterStatus → List Text
warnings [] = []
warnings (cluster ∷ clusters) = warning cluster.name cluster.reference_error ++ warnings clusters

unfoldable pub format_table : List ClusterStatus → List Text
unfolding table_rows widths line warnings
format_table clusters = map lit (lines_of (table_rows clusters)) ++ warnings clusters
