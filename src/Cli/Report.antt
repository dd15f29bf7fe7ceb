-- ===== src/Cli/Report.antt =====
-- `_format_validate` of src/solfleet/cli.py. The lines that are joined by "\n" are a list.
use solfleet.Prelude.{
  ℕ, ◌+◌, Bool, true, false, List, [], ◌∷◌, ◌++◌, map, String, Option, none, some, length, select,
}
use solfleet.Prelude.Text.{Text, str, num, lit}
use solfleet.Provision.{joined_by}
use solfleet.Validate.{Status, pass, warn, fail, Check}
use solfleet.Validate.Run.{NodeReport, BuilderReport, DnsReport, FleetReport}
use solfleet.Cli.Table.{ljust, role_name}

abbrev mark : Status → String
mark pass = "PASS"
mark warn = "WARN"
mark fail = "FAIL"

abbrev status_name : Status → String
status_name pass = "pass"
status_name warn = "warn"
status_name fail = "fail"

abbrev check_texts : List Check → List Text
check_texts [] = []
check_texts (c ∷ checks) =
    (str c.name ∷ str ":" ∷ str (status_name c.status) ∷ []) ∷ check_texts checks

-- `" ".join(texts)`
abbrev summary : List Check → Text
summary checks = joined_by " " (check_texts checks)

-- A line for each check that did not pass.
abbrev details_of : Check → List Text
details_of c = elim c.status [
  | pass ↦ []
  | _ ↦ (str "        - " ∷ str c.name ∷ str ": " ∷ c.detail) ∷ []
]

abbrev details : List Check → List Text
details [] = []
details (c ∷ checks) = details_of c ++ details checks

-- `f"{mark:5} {name:14} [{where}]{gap}{summary}"`
abbrev entry_line : Status → String → List String → List Check → Text
entry_line status name place checks =
    str (ljust (mark status) 5) ∷ str " " ∷ str (ljust name 14) ∷ (map str place ++ summary checks)

abbrev node_lines : NodeReport → List Text
node_lines n =
    entry_line n.status n.name (" [" ∷ n.cluster ∷ "/" ∷ role_name n.role ∷ "]  " ∷ []) n.checks
    ∷ details n.checks

abbrev all_node_lines : List NodeReport → List Text
all_node_lines [] = []
all_node_lines (n ∷ nodes) = node_lines n ++ all_node_lines nodes

abbrev builder_lines : List BuilderReport → List Text
builder_lines [] = []
builder_lines (b ∷ builders) =
    (entry_line b.status b.name (" [builder]      " ∷ []) b.checks ∷ details b.checks)
    ++ builder_lines builders

abbrev dns_lines : Option DnsReport → List Text
dns_lines none = []
dns_lines (some d) = entry_line d.status "dns" (" [provider]     " ∷ []) d.checks ∷ []

abbrev is_warn : Status → Bool
is_warn warn = true
is_warn _ = false

abbrev count_warns : List Check → ℕ
count_warns checks = length (select (λ c. is_warn c.status) checks)

abbrev node_warns : List NodeReport → ℕ
node_warns [] = 0
node_warns (n ∷ nodes) = count_warns n.checks + node_warns nodes

abbrev builder_warns : List BuilderReport → ℕ
builder_warns [] = 0
builder_warns (b ∷ builders) = count_warns b.checks + builder_warns builders

abbrev verdict : Bool → String
verdict true = "PASS"
verdict false = "FAIL"

-- The warnings of the DNS report are not counted.
unfoldable pub format_validate : FleetReport → List Text
unfolding ljust
format_validate report =
    all_node_lines report.nodes
    ++ (builder_lines report.builders
        ++ (dns_lines report.dns
            ++ (lit ""
                ∷ (str "OVERALL: "
                    ∷ str (verdict report.ok)
                    ∷ str "  ("
                    ∷ num (node_warns report.nodes + builder_warns report.builders)
                    ∷ str " warning(s))"
                    ∷ [])
                ∷ [])))
