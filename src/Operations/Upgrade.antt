-- ===== src/Operations/Upgrade.antt =====
-- `plan_upgrade` of src/solfleet/operations.py. The distribution of a build stands in Upgrade/Distribute, the
-- execution of an upgrade in Upgrade/Execute and Upgrade/Run.
pub mod Distribute
pub mod Report
pub mod Execute
pub mod Run
pub mod Kept
pub mod Sound
pub mod Staged
pub mod Recorded
pub mod Planned
pub mod Verified
use solfleet.Prelude.{
  ℕ, Bool, false, ◌&&◌, ◌||◌, not, List, [], ◌∷◌, ◌++◌, String, Option, none, some, mem, ◌==◌,
  truthy, is_some, if◌then◌else◌,
}
use solfleet.Prelude.Text.{Text, lit, str, repr, strs}
use solfleet.Prelude.Strings.{dirname}
use solfleet.Safety.{PolicyRules, Policy, for_cluster, version_allowed, GateDecision, Checks, gate}
use solfleet.Config.{Node, Cluster, Fleet, InstallConfig, BuilderHost, agave, jito, rpc, validator}
use solfleet.Config.Find.{Found, find_node, find_builder}
use solfleet.Builder.{agave_bins, geyser_lib_name}
use solfleet.Executor.{◌>>=◌}
use solfleet.Operations.{Reply, refused, reply, unknown_node}

-- `install.builder if install else None`
abbrev pub builder_of : Option InstallConfig → Option String
builder_of none = none
builder_of (some install) = install.builder

abbrev source_of : Option InstallConfig → String
source_of none = "agave"
source_of (some install) = elim install.source [ agave ↦ "agave" | jito ↦ "jito" ]

-- `install and install.geyser_repo`
abbrev pub builds_geyser : Option InstallConfig → Bool
builds_geyser none = false
builds_geyser (some install) = truthy install.geyser_repo

abbrev pub upgrade_plan : Cluster → Node → String → List Text
upgrade_plan cluster node target_version =
    let geyser =
      if builds_geyser cluster.install then " (+ matching libyellowstone_grpc_geyser.so)" else "" in
    let cycle : Text = elim node.role [
      | validator ↦ lit "agave-validator exit (leader-aware), systemd relaunches new binary"
      | rpc ↦ str "stop " ∷ str node.service.unit ∷ str ", swap, start" ∷ []
    ] in
    (str "on builder "
      ∷ repr (builder_of cluster.install)
      ∷ str ": build "
      ∷ str (source_of cluster.install)
      ∷ str " "
      ∷ str target_version
      ∷ str " from source"
      ∷ str geyser
      ∷ [])
    ∷ (str "distribute artifact set to "
        ∷ str node.name
        ∷ str "; checksum-verify each (abort on mismatch)"
        ∷ [])
    ∷ cycle
    ∷ (str "swap " ∷ str node.service.binary ∷ str " + geyser .so + version marker atomically" ∷ [])
    ∷ (str "wait until healthy + caught up to " ∷ str cluster.reference_rpc ∷ [])
    ∷ (str "verify reported version == " ∷ str target_version ∷ str "; record before/after" ∷ [])
    ∷ []

unfoldable pub upgrade_checks :
    String → Cluster → Node → PolicyRules → String → Option BuilderHost → Checks
unfolding version_allowed
upgrade_checks cluster_name cluster node rules target_version builder_node =
    (
      version_allowed rules (some target_version),
      str "version "
          ∷ str target_version
          ∷ str " not in allowed_versions "
          ∷ strs rules.allowed_versions
          ∷ str " for "
          ∷ str cluster_name
          ∷ [],
    )
    ∷ (
      is_some (builder_of cluster.install),
      str "cluster "
          ∷ str cluster_name
          ∷ str " has no install.builder configured (strategy=build requires one)"
          ∷ [],
    )
    ∷ (
      is_some builder_node,
      str "builder node " ∷ repr (builder_of cluster.install) ∷ str " not found in fleet" ∷ [],
    )
    ∷ (
      not (builds_geyser cluster.install) || is_some node.service.geyser_lib,
      str node.name
          ∷ str " builds a geyser .so but service.geyser_lib (its target path) is unset"
          ∷ [],
    )
    ∷ []

pub record UpgradePlan : Type 0 where
  pub decision : GateDecision
  pub target_version : String

abbrev pub plan_found : Fleet → Policy → String → String → Found → UpgradePlan
plan_found fleet policy node_name target_version (cluster_name, cluster, node) = record {
  decision =
      gate "upgrade" cluster_name node_name false (upgrade_plan cluster node target_version) (
        upgrade_checks cluster_name cluster node (for_cluster policy cluster_name) target_version
          (find_builder fleet (builder_of cluster.install)));
  target_version = target_version;
}

-- The field `note` is a constant text and left out.
unfoldable pub plan_upgrade : Fleet → Policy → String → String → Reply UpgradePlan
unfolding find_node gate upgrade_checks for_cluster find_builder
plan_upgrade fleet policy node_name target_version = elim (find_node fleet node_name) [
  | none ↦ refused (unknown_node node_name)
  | some found ↦ reply (plan_found fleet policy node_name target_version found)
]

abbrev or_local_bin : String → String
or_local_bin dir = if dir == "" then "/usr/local/bin" else dir

unfoldable pub dest_for : Node → String → Option Text
unfolding dirname
dest_for node artifact_name =
    if artifact_name == geyser_lib_name
    then elim node.service.geyser_lib [ none ↦ none | some path ↦ some (lit path) ]
    else if mem artifact_name agave_bins
    then some (str (or_local_bin (dirname node.service.binary)) ∷ str "/" ∷ str artifact_name ∷ [])
    else none
