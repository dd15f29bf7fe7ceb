-- ===== src/Operations/Restart.antt =====
-- `restart_node` of src/solfleet/operations.py: gate, then a dry run or the execution, then the audit.
pub mod Run
pub mod Planned
pub mod Recorded
use solfleet.Prelude.{
  ℕ, ◌+◌, Bool, false, ◌&&◌, ◌||◌, not, List, [], ◌∷◌, ◌++◌, String, Option, none, some, ◌==◌,
  if◌then◌else◌,
}
use solfleet.Prelude.Text.{Text, lit, str, num, repr, opt_num}
use solfleet.Prelude.Strings.{to_int}
use solfleet.Json
use solfleet.Json.{Json, object}
use solfleet.Safety.{PolicyRules, disk_free_ok, Mode, GateDecision, Checks}
use solfleet.Schedule.{LeaderReport}
use solfleet.Config.{Node, rpc, validator}
use solfleet.Audit.{Entry}
use solfleet.Executor.{◌>>=◌, ◌>>◌, after}
use solfleet.Executor.Inspect.{DiskRow, usage, missing, Inspection}
use solfleet.Executor.Steps.{Step}
use solfleet.Operations.Catchup.{CatchUp}
use solfleet.Operations.Report.{
  service_json, inspection_json, service_step_json, safe_exit_json, catchup_json, leader_json,
}
use solfleet.Safety.{decision_json}

-- `pct.endswith("%") and pct[:-1].isdigit()`, and `pct[:-1]` as a number.
abbrev percent_digits : String → Option String
percent_digits String.[] = none
percent_digits (String.◌∷◌ c String.[]) =
    if String.◌∷◌ c String.[] == "%" then some String.[] else none
percent_digits (String.◌∷◌ c (String.◌∷◌ d s)) = elim (percent_digits (String.◌∷◌ d s)) [
  | none ↦ none
  | some rest ↦ some (String.◌∷◌ c rest)
]

abbrev percent : Option String → List ℕ
percent none = []
percent (some digits) = elim (to_int digits) [ none ↦ [] | some n ↦ n ∷ [] ]

unfoldable pub use_pcts : List DiskRow → List ℕ
unfolding to_int
use_pcts [] = []
use_pcts (usage _ _ _ _ use_pct _ ∷ rows) = percent (percent_digits use_pct) ++ use_pcts rows
use_pcts (missing _ _ ∷ rows) = use_pcts rows

abbrev pub restart_plan : PolicyRules → Node → String → ℕ → List Text
restart_plan rules node reference_rpc max_lag =
    let wait =
      str "wait until "
      ∷ str node.name
      ∷ str " reports healthy and lag <= "
      ∷ num max_lag
      ∷ str " vs "
      ∷ str reference_rpc
      ∷ [] in
    let verify = lit "verify service active; record before/after slot" in
    elim node.role [
      | validator ↦
          (str "agave-validator exit on "
            ∷ str node.name
            ∷ str " (wait for a leader gap of >= "
            ∷ num rules.require_leader_window_minutes
            ∷ str " min, then exit; systemd relaunches)"
            ∷ [])
          ∷ wait
          ∷ verify
          ∷ []
      | rpc ↦
          (str "stop " ∷ str node.service.unit ∷ str " on " ∷ str node.name ∷ [])
          ∷ (str "start " ∷ str node.service.unit ∷ [])
          ∷ wait
          ∷ verify
          ∷ []
    ]

abbrev pub is_active : Option String → Bool
is_active none = false
is_active (some state) = state == "active"

unfoldable pub restart_checks : PolicyRules → Inspection → Checks
unfolding use_pcts disk_free_ok
restart_checks rules before =
    (before.service.ok, lit "node not reachable over SSH for preflight")
    ∷ (
      is_active before.service.active,
      str "service not active before restart (is " ∷ repr before.service.active ∷ str ")" ∷ [],
    )
    ∷ (
      disk_free_ok rules (use_pcts before.disk),
      str "disk below policy floor min_disk_free_pct=" ∷ opt_num rules.min_disk_free_pct ∷ [],
    )
    ∷ []

-- The dict `cycle`: a safe exit, or a stop and a start.
pub data Cycle : Type 0 where
  safe_exit : Step → Cycle
  stop_start : Step → Step → Cycle

abbrev pub cycle_ok : Cycle → Bool
cycle_ok (safe_exit step) = step.ok
cycle_ok (stop_start stop start) = stop.ok && start.ok

-- What is returned: a plan that was not executed, or the result of the execution.
pub record Restarted : Type 0 where
  pub decision : GateDecision
  pub before_slot : Option ℕ
  pub cycle : Cycle
  pub catchup : CatchUp
  pub after : Inspection
  pub leader : Option LeaderReport
  pub succeeded : Bool

pub data Outcome : Type 0 where
  planned : GateDecision → Inspection → Option LeaderReport → Outcome
  executed : Restarted → Outcome

abbrev pub cycle_json : PolicyRules → Node → Cycle → Json
cycle_json rules node (safe_exit step) = safe_exit_json rules.require_leader_window_minutes step
cycle_json rules node (stop_start stop start) = object (
    ("stop", service_step_json "stop" node stop)
    ∷ ("start", service_step_json "start" node start)
    ∷ [])

abbrev pub planned_json : GateDecision → Inspection → Option LeaderReport → Json
planned_json decision before leader = object (
    ("plan", Json.texts decision.plan)
    ∷ ("reasons", Json.texts decision.reasons)
    ∷ ("preflight", inspection_json before)
    ∷ ("leader", leader_json leader)
    ∷ [])

abbrev pub restarted_json : PolicyRules → Node → Restarted → Json
restarted_json rules node r = object (
    ("decision", decision_json r.decision)
    ∷ ("before_slot", Json.opt_int r.before_slot)
    ∷ ("cycle", cycle_json rules node r.cycle)
    ∷ ("catchup", catchup_json r.catchup)
    ∷ ("after_service", service_json r.after.service)
    ∷ ("leader", leader_json r.leader)
    ∷ ("succeeded", Json.Json.bool r.succeeded)
    ∷ [])

abbrev pub restart_entry : String → String → Mode → Bool → Json → Entry
restart_entry cluster node mode allowed detail = record {
  operation = "restart_node";
  cluster = cluster;
  node = node;
  mode = mode;
  allowed = allowed;
  detail = some detail;
}
