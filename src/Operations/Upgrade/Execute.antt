-- ===== src/Operations/Upgrade/Execute.antt =====
-- `execute_upgrade` of src/solfleet/operations.py: gate, build, distribute, swap, cycle, catch-up.
use solfleet.Prelude.{Bool, true, false, List, [], ◌∷◌, ◌++◌, String, Option, some}
use solfleet.Prelude.Text.{lit, str, opt_num}
use solfleet.Json
use solfleet.Json.{Json, object}
use solfleet.Safety.{PolicyRules, disk_free_ok, Mode, execute, GateDecision, Checks, decision_json}
use solfleet.Audit.{Entry}
use solfleet.Config.{Node, Cluster, BuilderHost}
use solfleet.Builder.{BuildResult}
use solfleet.Executor.Inspect.{Inspection}
use solfleet.Executor.Steps.{Step}
use solfleet.Operations.Catchup.{CatchUp}
use solfleet.Operations.Report.{inspection_json, catchup_json}
use solfleet.Operations.Restart.{use_pcts, Cycle, cycle_json}
use solfleet.Operations.Upgrade.{upgrade_checks}
use solfleet.Operations.Upgrade.Distribute.{Placement, verified_swaps, MarkerUpdate}
use solfleet.Operations.Upgrade.Report.{
  build_json, built_json, placements_json, distribute_json, swap_json, marker_json,
}

pub record Upgraded : Type 0 where
  pub decision : GateDecision
  pub build : BuildResult
  pub placements : List Placement
  pub swap : Step
  pub marker : MarkerUpdate
  pub cycle : Cycle
  pub catchup : CatchUp
  pub reported_version : Option String
  pub version_ok : Bool
  pub succeeded : Bool

-- What is returned: a plan, a failed build, a failed distribution, or the result.
pub data Upgrade : Type 0 where
  planned : GateDecision → Inspection → Upgrade
  unbuilt : GateDecision → BuildResult → Upgrade
  unverified : GateDecision → BuildResult → List Placement → Upgrade
  upgraded : Upgraded → Upgrade

-- The checks of the plan, and two more from the inspection.
unfoldable pub preflight_checks :
    String → Cluster → Node → PolicyRules → String → Option BuilderHost → Inspection → Checks
unfolding upgrade_checks use_pcts disk_free_ok
preflight_checks cluster_name cluster node rules target_version builder_node before =
    upgrade_checks cluster_name cluster node rules target_version builder_node
    ++ ((before.service.ok, lit "node not reachable over SSH for preflight")
        ∷ (
          disk_free_ok rules (use_pcts before.disk),
          str "disk below policy floor min_disk_free_pct=" ∷ opt_num rules.min_disk_free_pct ∷ [],
        )
        ∷ [])

abbrev pub upgrade_entry : String → String → Mode → Bool → Json → Entry
upgrade_entry cluster node mode allowed detail = record {
  operation = "upgrade";
  cluster = cluster;
  node = node;
  mode = mode;
  allowed = allowed;
  detail = some detail;
}

abbrev planned_json : GateDecision → Inspection → Json
planned_json decision before = object (
    ("plan", Json.texts decision.plan)
    ∷ ("reasons", Json.texts decision.reasons)
    ∷ ("preflight", inspection_json before)
    ∷ [])

abbrev unbuilt_json : GateDecision → BuildResult → Json
unbuilt_json decision build = object (
    ("decision", decision_json decision)
    ∷ ("build", build_json build)
    ∷ ("succeeded", Json.Json.bool false)
    ∷ [])

abbrev unverified_json : String → GateDecision → BuildResult → List Placement → Json
unverified_json staging decision build placements = object (
    ("decision", decision_json decision)
    ∷ ("build", build_json build)
    ∷ ("distribute", distribute_json staging false placements)
    ∷ ("succeeded", Json.Json.bool false)
    ∷ [])

abbrev upgraded_json : PolicyRules → Node → Upgraded → Json
upgraded_json rules node u = object (
    ("decision", decision_json u.decision)
    ∷ ("build", built_json u.build)
    ∷ ("distribute", object (placements_json true u.placements))
    ∷ ("swap", swap_json (verified_swaps u.placements) u.swap)
    ∷ ("marker", marker_json u.marker)
    ∷ ("cycle", cycle_json rules node u.cycle)
    ∷ ("catchup", catchup_json u.catchup)
    ∷ ("reported_version", Json.opt_string u.reported_version)
    ∷ ("version_ok", Json.Json.bool u.version_ok)
    ∷ ("succeeded", Json.Json.bool u.succeeded)
    ∷ [])

-- The entry that each outcome is recorded with.
abbrev pub entry_of : PolicyRules → Node → String → String → String → Upgrade → Entry
entry_of rules node staging cluster_name node_name (planned decision before) =
    upgrade_entry cluster_name node_name decision.mode decision.allowed
      (planned_json decision before)
entry_of rules node staging cluster_name node_name (unbuilt decision build) =
    upgrade_entry cluster_name node_name execute true (unbuilt_json decision build)
entry_of rules node staging cluster_name node_name (unverified decision build placements) =
    upgrade_entry cluster_name node_name execute true
      (unverified_json staging decision build placements)
entry_of rules node staging cluster_name node_name (upgraded u) =
    upgrade_entry cluster_name node_name execute true (upgraded_json rules node u)
