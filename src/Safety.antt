-- ===== src/Safety.antt =====
-- src/solfleet/safety.py: the policy model and the gate that every mutation passes through.
pub mod Load
pub mod Fnmatch
pub mod Gate
pub mod Versions
use solfleet.Prelude.{
  ℕ, ◌+◌, Option, none, some, Bool, true, false, List, [], ◌∷◌, ◌++◌, String, leb, any, all,
  is_empty, if◌then◌else◌,
}
use solfleet.Prelude.Text.{Text, lit}
use solfleet.Prelude.Dict.{Dict, lookup}
use solfleet.Json
use solfleet.Json.{Json, object}
use Fnmatch.{fnmatch}

pub record PolicyRules : Type 0 where
  pub max_concurrent_restarts : ℕ
  pub allowed_versions : List String
  pub min_disk_free_pct : Option ℕ
  pub require_leader_window_minutes : ℕ

abbrev pub default_rules : PolicyRules
default_rules = record {
  max_concurrent_restarts = 1;
  allowed_versions = "*" ∷ [];
  min_disk_free_pct = none;
  require_leader_window_minutes = 5;
}

pub record Policy : Type 0 where
  pub defaults : PolicyRules
  pub clusters : Dict PolicyRules

-- `self.clusters.get(name, self.defaults)`
unfoldable pub for_cluster : Policy → String → PolicyRules
unfolding lookup
for_cluster policy name = elim (lookup name policy.clusters) [
  | none ↦ policy.defaults
  | some rules ↦ rules
]

unfoldable pub version_allowed : PolicyRules → Option String → Bool
version_allowed rules none = false
version_allowed rules (some version) = any rules.allowed_versions (fnmatch version)

-- `100 - used >= floor` over the integers, written without the subtraction.
unfoldable pub disk_free_ok : PolicyRules → List ℕ → Bool
disk_free_ok rules use_pcts = elim rules.min_disk_free_pct [
  | none ↦ true
  | some floor ↦ all use_pcts (λ used. leb (floor + used) 100)
]

pub data Mode : Type 0 where
  dry_run execute : Mode

pub record GateDecision : Type 0 where
  pub operation : String
  pub cluster : String
  pub node : String
  pub mode : Mode
  pub allowed : Bool
  pub plan : List Text
  pub reasons : List Text

abbrev pub Checks : Type 0
Checks = List (Bool × Text)

-- `[message for passed, message in checks if not passed]`
abbrev pub failed_messages : Checks → List Text
failed_messages [] = []
failed_messages ((passed, message) ∷ checks) =
    let rest = failed_messages checks in if passed then rest else message ∷ rest

abbrev pub would_block : Text
would_block = lit "dry-run: the following checks would block execution"

abbrev pub would_pass : Text
would_pass = lit "dry-run: preflight checks pass; pass confirm=true to execute"

-- The list `reasons` as the branches of `gate` build it.
abbrev gate_reasons : Bool → List Text → List Text
gate_reasons false [] = would_pass ∷ []
gate_reasons true [] = []
gate_reasons false failed = would_block ∷ failed
gate_reasons true failed = failed

unfoldable pub gate : String → String → String → Bool → List Text → Checks → GateDecision
gate operation cluster node confirm plan checks =
    let failed = failed_messages checks in
    record {
      operation = operation;
      cluster = cluster;
      node = node;
      mode = if confirm then execute else dry_run;
      allowed = is_empty failed;
      plan = plan;
      reasons = gate_reasons confirm failed;
    }

-- `GateDecision.to_dict`
abbrev mode_json : Mode → Json
mode_json dry_run = Json.string "dry-run"
mode_json execute = Json.string "execute"

abbrev pub decision_json : GateDecision → Json
decision_json d = object (
    ("operation", Json.string d.operation)
    ∷ ("cluster", Json.string d.cluster)
    ∷ ("node", Json.string d.node)
    ∷ ("mode", mode_json d.mode)
    ∷ ("allowed", Json.Json.bool d.allowed)
    ∷ ("plan", Json.texts d.plan)
    ∷ ("reasons", Json.texts d.reasons)
    ∷ [])
