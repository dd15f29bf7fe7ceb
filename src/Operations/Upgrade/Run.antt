-- ===== src/Operations/Upgrade/Run.antt =====
-- The run of `execute_upgrade` of src/solfleet/operations.py against the outside.
use solfleet.Prelude.{ℕ, Bool, true, false, ◌&&◌, List, String, Option, none, some}
use solfleet.Safety.{PolicyRules, Policy, for_cluster, GateDecision, gate}
use solfleet.Config.{Node, Cluster, Fleet, InstallConfig, BuilderHost, rpc, validator}
use solfleet.Config.Find.{Found, find_node, find_builder}
use solfleet.Builder.{BuildResult}
use solfleet.Builder.Build.{build_artifacts}
use solfleet.Executor.{Env, Action, ◌>>=◌, ◌>>◌, pure, record_audit, builder_target}
use solfleet.Executor.Inspect.{Inspection, inspect_node}
use solfleet.Executor.Steps.{
  Step, Swap, stop_service, start_service, validator_safe_exit, atomic_swap,
}
use solfleet.Operations.{Reply, refused, reply, unknown_node}
use solfleet.Operations.Catchup.{CatchUp, wait_for_catchup}
use solfleet.Operations.Restart.{Cycle, safe_exit, stop_start, cycle_ok}
use solfleet.Operations.Upgrade.{builder_of, upgrade_plan}
use solfleet.Operations.Upgrade.Distribute.{
  Placement, distribute, verified_swaps, MarkerUpdate, update_marker, version_matches,
}
use solfleet.Operations.Upgrade.Execute.{
  Upgraded, Upgrade, planned, unbuilt, unverified, upgraded, preflight_checks, entry_of,
}

module _ (env : Env) (rules : PolicyRules) (max_lag : ℕ) (node : Node)
    (target_version : String) where
  unfoldable pub swap_and_mark : List Swap → Action (Step × MarkerUpdate)
  unfolding atomic_swap update_marker
  swap_and_mark swaps = do
    swap ← atomic_swap env node swaps
    marker ← update_marker env node target_version
    pure (swap, marker)

  -- A validator's files are replaced before its safe exit, an RPC node's while it is stopped.
  unfoldable pub install_and_cycle : List Swap → Action (Step × MarkerUpdate × Cycle)
  unfolding swap_and_mark stop_service start_service validator_safe_exit
  install_and_cycle swaps = elim node.role [
    | validator ↦ do
      installed ← swap_and_mark swaps
      step ← validator_safe_exit env node rules.require_leader_window_minutes
      pure (installed.0, installed.1, safe_exit step)
    | rpc ↦ do
      stop ← stop_service env node
      installed ← swap_and_mark swaps
      start ← start_service env node
      pure (installed.0, installed.1, stop_start stop start)
  ]

  module _ (decision : GateDecision) (cluster : Cluster) where
    abbrev upgrade_result :
        BuildResult → List Placement → Step × MarkerUpdate × Cycle → CatchUp → Inspection → Upgraded
    upgrade_result build placements (swap, marker, cycle) catch after =
        let version_ok = version_matches after.version.binary_version target_version in
        record {
          decision = decision;
          build = build;
          placements = placements;
          swap = swap;
          marker = marker;
          cycle = cycle;
          catchup = catch;
          reported_version = after.version.binary_version;
          version_ok = version_ok;
          succeeded = swap.ok && (cycle_ok cycle && (catch.caught_up && version_ok));
        }

    -- Behind a distribution that is ok.
    unfoldable pub apply_upgrade : BuildResult → List Placement → Action Upgrade
    unfolding install_and_cycle wait_for_catchup inspect_node version_matches
    apply_upgrade build placements = do
      installed ← install_and_cycle (verified_swaps placements)
      catch ← wait_for_catchup env node.name cluster.reference_rpc max_lag 600 5
      after ← inspect_node env node
      pure (upgraded (upgrade_result build placements installed catch after))

    module _ (staging : String) where
      unfoldable pub after_distribute : BuildResult → Bool × List Placement → Action Upgrade
      unfolding apply_upgrade
      after_distribute build (true, placements) = apply_upgrade build placements
      after_distribute build (false, placements) = pure (unverified decision build placements)

      unfoldable pub distribute_build : BuilderHost → BuildResult → Action Upgrade
      unfolding distribute after_distribute
      distribute_build builder build = do
        dist ← distribute env (builder_target builder) node staging build.artifacts
        after_distribute build dist

      unfoldable pub after_build : BuilderHost → BuildResult → Action Upgrade
      unfolding distribute_build
      after_build builder build = elim build.ok [
        | true ↦ distribute_build builder build
        | false ↦ pure (unbuilt decision build)
      ]

      unfoldable pub build_and_install : Bool → InstallConfig → BuilderHost → Action Upgrade
      unfolding build_artifacts after_build
      build_and_install force install builder = do
        build ← build_artifacts env (builder_target builder) install target_version force
        after_build builder build

      -- The gate allows an upgrade only where there is an install and its builder was found.
      unfoldable pub attempt :
          Bool → Inspection → Option InstallConfig → Option BuilderHost → Bool → Action Upgrade
      unfolding build_and_install
      attempt force before (some install) (some builder) true =
          build_and_install force install builder
      attempt force before install builder go = pure (planned decision before)

module _ (env : Env) (fleet : Fleet) (policy : Policy) (max_lag : ℕ) (staging : String)
    (force confirm : Bool) (node_name target_version : String) where
  abbrev pub decide : String → Cluster → Node → Inspection → GateDecision
  decide cluster_name cluster node before =
      gate "upgrade" cluster_name node_name confirm (upgrade_plan cluster node target_version) (
        preflight_checks cluster_name cluster node (for_cluster policy cluster_name) target_version
          (find_builder fleet (builder_of cluster.install)) before)

  unfoldable pub upgrade_found : Found → Action Upgrade
  unfolding inspect_node gate preflight_checks for_cluster find_builder attempt
  upgrade_found (cluster_name, cluster, node) = do
    before ← inspect_node env node
    let decision : GateDecision = decide cluster_name cluster node before
    outcome ←
        attempt env (for_cluster policy cluster_name) max_lag node target_version decision cluster
          staging force before cluster.install (find_builder fleet (builder_of cluster.install))
          (confirm && decision.allowed)
    record_audit
        (entry_of (for_cluster policy cluster_name) node staging cluster_name node_name outcome)
    pure outcome

  abbrev upgrade_from : Option Found → Action (Reply Upgrade)
  upgrade_from none = pure (refused (unknown_node node_name))
  upgrade_from (some found) = do outcome ← upgrade_found found; pure (reply outcome)

  unfoldable pub execute_upgrade : Action (Reply Upgrade)
  unfolding find_node upgrade_found
  execute_upgrade = upgrade_from (find_node fleet node_name)
